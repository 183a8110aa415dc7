-- ===== src/Store/Acls.antt =====
-- openvtld/internal/store/acls.go: the registry of the initiators and what each may see, and the rows of
-- the settings table (store.go).
use Prim.Native.Nat.{ℕ}
use open_vtl.Prelude.Text.{ascii, bytes_eq, parse_int}
use open_vtl.Prelude.Words.{trim_bytes, split_on, trimmed_parts}
use open_vtl.Prelude.{
  String, str_eq, Bool, true, false, ◌||◌, not, Option, none, some, List, [], ◌∷◌, ◌++◌, ltb, ◌==◌,
  ◌&&◌, ℤ, if◌then◌else◌, find, remove_rows, update_rows, count_rows,
}
use open_vtl.Exec.{Result, ok, err, Exec, ◌>>=◌, ◌>>◌, pure, exit_if, on_error}
use open_vtl.Store.{
  Env, SqlError, not_found, constraint, InitiatorAcl, SettingRow, Tables, Server, sql, query, now,
}

-- A scope: nil for all, or the members of a set.
abbrev pub Scope : Type 0 → Type 0
Scope A = Option (List A)

unfoldable pub port_set : InitiatorAcl → Scope (List ℕ)
unfolding trim_bytes split_on trimmed_parts
port_set a =
    let s = trim_bytes a.ports in
    if bytes_eq s []
    then none
    else (if bytes_eq s (ascii "-") then some [] else some (trimmed_parts (split_on b',' s)))

with_number : Option ℤ → List ℤ → List ℤ
with_number none ns = ns
with_number (some n) ns = n ∷ ns

numbers : List (List ℕ) → List ℤ
numbers [] = []
numbers (p ∷ ps) = with_number (parse_int (trim_bytes p)) (numbers ps)

unfoldable pub library_set : InitiatorAcl → Scope ℤ
unfolding trim_bytes split_on numbers with_number parse_int
library_set a =
    let s = trim_bytes a.libraries in
    if bytes_eq s []
    then none
    else (if bytes_eq s (ascii "-") then some [] else some (numbers (split_on b',' s)))

-- The BINARY collation, in which the primary key is compared.
unfoldable pub bytes_le : List ℕ → List ℕ → Bool
bytes_le [] s = true
bytes_le (x ∷ xs) [] = false
bytes_le (x ∷ xs) (y ∷ ys) = ltb x y || (x == y && bytes_le xs ys)

insert_by_wwpn : InitiatorAcl → List InitiatorAcl → List InitiatorAcl
unfolding bytes_le
insert_by_wwpn a [] = a ∷ []
insert_by_wwpn a (b ∷ bs) =
    let rest = insert_by_wwpn a bs in if bytes_le a.wwpn b.wwpn then a ∷ b ∷ bs else b ∷ rest

-- ORDER BY wwpn
unfoldable pub sort_by_wwpn : List InitiatorAcl → List InitiatorAcl
unfolding insert_by_wwpn
sort_by_wwpn [] = []
sort_by_wwpn (a ∷ as') = insert_by_wwpn a (sort_by_wwpn as')

abbrev pub has_wwpn : List ℕ → InitiatorAcl → Bool
has_wwpn wwpn a = bytes_eq a.wwpn wwpn

-- WHERE fabric = ?, which an empty fabric leaves out.
unfoldable pub of_fabric : String → InitiatorAcl → Bool
of_fabric fabric a = str_eq fabric "" || str_eq a.fabric fabric

unfoldable pub acl_rows : String → List InitiatorAcl → List InitiatorAcl
unfolding sort_by_wwpn of_fabric
acl_rows fabric rows = sort_by_wwpn (remove_rows (λ a. not (of_fabric fabric a)) rows)

-- The primary key is the WWPN.
unfoldable pub insert_acl : InitiatorAcl → Tables → Result SqlError (Unit {0}) × Tables
insert_acl a db =
    if ltb 0 (count_rows (has_wwpn a.wwpn) db.initiator_acl)
    then (err constraint, db)
    else (ok tt, record db { initiator_acl = db.initiator_acl ++ a ∷ [] })

-- INSERT OR IGNORE
unfoldable pub seed_acl : InitiatorAcl → Tables → Result SqlError (Unit {0}) × Tables
seed_acl a db =
    if ltb 0 (count_rows (has_wwpn a.wwpn) db.initiator_acl)
    then (ok tt, db)
    else (ok tt, record db { initiator_acl = db.initiator_acl ++ a ∷ [] })

change_scopes : List ℕ → List ℕ → List ℕ → List ℕ → Tables → Result SqlError ℕ × Tables
change_scopes wwpn alias ports libraries db = (
  ok (count_rows (has_wwpn wwpn) db.initiator_acl),
  record db {
    initiator_acl =
        update_rows (has_wwpn wwpn)
          (λ a. record a { alias = alias; ports = ports; libraries = libraries }) db.initiator_acl;
  },
)

drop_acl : List ℕ → Tables → Result SqlError ℕ × Tables
drop_acl wwpn db = (
  ok (count_rows (has_wwpn wwpn) db.initiator_acl),
  record db { initiator_acl = remove_rows (has_wwpn wwpn) db.initiator_acl },
)

abbrev pub has_setting : String → SettingRow → Bool
has_setting key r = str_eq r.key key

abbrev pub value_or : List ℕ → Option SettingRow → List ℕ
value_or d none = d
value_or d (some r) = r.value

-- INSERT … ON CONFLICT(key) DO UPDATE
unfoldable pub upsert_setting : String → List ℕ → List SettingRow → List SettingRow
upsert_setting key value rows =
    if ltb 0 (count_rows (has_setting key) rows)
    then update_rows (has_setting key) (λ r. record r { value = value }) rows
    else rows ++ record { key = key; value = value } ∷ []

module _ (env : Env) where
  unfoldable pub list_acls : String → Exec (Server env) SqlError (List InitiatorAcl)
  list_acls fabric = query env (λ db. acl_rows fabric db.initiator_acl)

  unfoldable pub add_acl : InitiatorAcl → Exec (Server env) SqlError (Unit {0})
  add_acl a = do ts ← now env; sql env (insert_acl (record a { created_at = ts }))

  -- No row affected is ErrNotFound.
  unfoldable pub update_acl_scopes :
      List ℕ → List ℕ → List ℕ → List ℕ → Exec (Server env) SqlError (Unit {0})
  unfolding change_scopes
  update_acl_scopes wwpn alias ports libraries = do
    n ← sql env (change_scopes wwpn alias ports libraries)
    exit_if (n == 0) not_found

  unfoldable pub remove_acl : List ℕ → Exec (Server env) SqlError (Unit {0})
  unfolding drop_acl
  remove_acl wwpn = do n ← sql env (drop_acl wwpn); exit_if (n == 0) not_found

  -- An error reads as the default.
  unfoldable pub setting : {E : Type 0} → String → List ℕ → Exec (Server env) E (List ℕ)
  setting key d =
      on_error (λ (e : SqlError). pure d)
        (query env (λ db. value_or d (find (has_setting key) db.settings)))

  unfoldable pub set_setting : String → List ℕ → Exec (Server env) SqlError (Unit {0})
  set_setting key value =
      sql env (λ db. (ok tt, record db { settings = upsert_setting key value db.settings }))

  seed_each : List (List ℕ) → Exec (Server env) SqlError (Unit {0})
  seed_each [] = pure tt
  seed_each (w ∷ ws) =
      let rest = seed_each ws in
      let wwpn = trim_bytes w in
      if bytes_eq wwpn [] then rest else (do
        ts ← now env
        sql env (
            seed_acl (record {
              wwpn = wwpn;
              alias = [];
              fabric = "fc";
              ports = [];
              libraries = [];
              created_at = ts;
            }))
        rest)

  unfoldable pub seed_acls : List (List ℕ) → Exec (Server env) SqlError (Unit {0})
  unfolding seed_each
  seed_acls wwpns = do
    seeded ← setting "acl.seeded" []
    if bytes_eq seeded (ascii "1")
        then pure tt
        else (do seed_each wwpns; set_setting "acl.seeded" (ascii "1"))
