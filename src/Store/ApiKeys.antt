-- ===== src/Store/ApiKeys.antt =====
-- openvtld/internal/store/apikeys.go: the API keys, and the setting that enables them.
use open_vtl.Prelude.Text.{eq_nocase}
use open_vtl.Prelude.{
  ℕ, ◌+◌, String, str_eq, Bool, false, ◌||◌, Option, none, some, List, [], ◌∷◌, ◌++◌, ltb, ◌==◌,
  if◌then◌else◌, ℤ, pos, negsuc, find, remove_rows, update_rows, count_rows,
}
use open_vtl.Exec.{Result, ok, err, Exec, ◌>>=◌, ◌>>◌, pure, or_exit, on_error, exit}
use open_vtl.Store.{Env, SqlError, not_found, constraint, ApiKey, Tables, Server, sql, query, now}

-- name and token_hash are both UNIQUE.
abbrev pub clashes : ApiKey → ApiKey → Bool
clashes new k = eq_nocase k.name new.name || str_eq k.token_hash new.token_hash

unfoldable pub insert_key : (ℕ → ApiKey) → Tables → Result SqlError ℕ × Tables
insert_key row db =
    let id = db.next_key in
    if ltb 0 (count_rows (clashes (row id)) db.api_keys)
    then (err constraint, db)
    else (ok id, record db { api_keys = db.api_keys ++ row id ∷ []; next_key = id + 1 })

abbrev pub key_has_hash : String → ApiKey → Bool
key_has_hash token_hash k = str_eq k.token_hash token_hash

-- The id of a request is any int64, the id of a row is positive.
abbrev pub key_has_id : ℤ → ApiKey → Bool
key_has_id (pos id) k = k.id == id
key_has_id (negsuc id) k = false

unfoldable pub touch : ℕ → ℕ → Tables → Result SqlError (Unit {0}) × Tables
touch id ts db = (
  ok tt,
  record db {
    api_keys =
        update_rows (key_has_id (pos id)) (λ k. record k { last_used_at = some ts }) db.api_keys;
  },
)

unfoldable pub drop_key : ℤ → Tables → Result SqlError (Unit {0}) × Tables
drop_key id db = (ok tt, record db { api_keys = remove_rows (key_has_id id) db.api_keys })

abbrev pub or_default : String → Option String → String
or_default default none = default
or_default default (some v) = v

module _ (env : Env) where
  unfoldable pub create_api_key : List ℕ → String → String → List ℕ → Exec (Server env) SqlError ℕ
  create_api_key name role token_hash created_by = do
    ts ← now env
    sql env (
        insert_key (λ id. record {
          id = id;
          name = name;
          role = role;
          token_hash = token_hash;
          created_by = created_by;
          created_at = ts;
          last_used_at = none;
        }))

  unfoldable pub list_api_keys : Exec (Server env) SqlError (List ApiKey)
  list_api_keys = query env (λ db. db.api_keys)

  -- Every error is reported as not_found.
  unfoldable pub api_key_by_hash : String → Exec (Server env) SqlError ApiKey
  api_key_by_hash token_hash =
      on_error (λ (e : SqlError). exit not_found)
        (do
          row ← query env (λ db. find (key_has_hash token_hash) db.api_keys)
          or_exit not_found row)

  unfoldable pub touch_api_key_row : ℕ → Exec (Server env) SqlError (Unit {0})
  touch_api_key_row id = do ts ← now env; sql env (touch id ts)

  unfoldable pub delete_api_key_row : ℤ → Exec (Server env) SqlError (List ℕ)
  delete_api_key_row id = do
    k ←
        on_error (λ (e : SqlError). exit not_found)
          (do row ← query env (λ db. find (key_has_id id) db.api_keys); or_exit not_found row)
    sql env (drop_key id)
    pure k.name

  -- Setting(apikeys.enabled, ""): a missing row and an error both give the default.
  unfoldable pub api_keys_setting : {E : Type 0} → Exec (Server env) E String
  api_keys_setting =
      on_error (λ (e : SqlError). pure "") (query env (λ db. or_default "" db.api_keys_enabled))
