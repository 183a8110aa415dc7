-- ===== src/Store/Sessions.antt =====
-- openvtld/internal/store/auth.go: the session table.
use open_vtl.Prelude.{
  ℕ, ◌*◌, ◌/◌, String, str_eq, Bool, ◌||◌, Option, none, some, List, [], ◌∷◌, ◌++◌, ltb,
  if◌then◌else◌, ℤ, find, remove_rows, update_rows, count_rows,
}
use open_vtl.Exec.{Result, ok, err, Exec, ◌>>=◌, ◌>>◌, pure, exit_if, or_exit}
use open_vtl.Store.{
  Env, SqlError, not_found, constraint, User, Session, Tables, Server, sql, query, clock, now,
}
use open_vtl.Store.Users.{has_id}

-- A second in nanoseconds.
abbrev pub second : ℕ
second = 1000000000

abbrev pub has_token : String → Session → Bool
has_token token_hash s = str_eq s.token_hash token_hash

-- INSERT INTO session: token_hash is the primary key. Foreign keys are not enforced.
unfoldable pub insert_session : Session → Tables → Result SqlError (Unit {0}) × Tables
insert_session row db =
    if ltb 0 (count_rows (has_token row.token_hash) db.sessions)
    then (err constraint, db)
    else (ok tt, record db { sessions = db.sessions ++ row ∷ [] })

abbrev pub join_user : Session → Option User → Option (User × Session)
join_user s none = none
join_user s (some u) = some (u, s)

abbrev pub join_session : List User → Option Session → Option (User × Session)
join_session users none = none
join_session users (some s) = join_user s (find (has_id s.user_id) users)

-- SELECT … FROM session s JOIN user u ON u.id = s.user_id WHERE s.token_hash = ?
unfoldable pub session_row : String → Tables → Option (User × Session)
session_row token_hash db = join_session db.users (find (has_token token_hash) db.sessions)

unfoldable pub slide : String → ℕ → ℕ → Tables → Result SqlError (Unit {0}) × Tables
slide token_hash expires_at ts db = (
  ok tt,
  record db {
    sessions =
        update_rows (has_token token_hash)
          (λ s. record s { expires_at = expires_at; last_seen = ts }) db.sessions;
  },
)

unfoldable pub drop_session : String → Tables → Result SqlError (Unit {0}) × Tables
drop_session token_hash db =
    (ok tt, record db { sessions = remove_rows (has_token token_hash) db.sessions })

abbrev is_stale : ℕ → Session → Bool
is_stale t s = ltb s.expires_at t

unfoldable pub drop_stale : ℕ → Tables → Result SqlError (Unit {0}) × Tables
drop_stale t db = (ok tt, record db { sessions = remove_rows (is_stale t) db.sessions })

module _ (env : Env) where
  -- A time is formatted with whole seconds, so its fraction is dropped.
  unfoldable pub create_session : String → ℤ → ℕ → List ℕ → Exec (Server env) SqlError (Unit {0})
  create_session token_hash user_id expires remote_addr = do
    created ← now env
    seen ← now env
    sql env (
        insert_session (record {
          token_hash = token_hash;
          user_id = user_id;
          created_at = created;
          expires_at = expires / second;
          last_seen = seen;
          remote_addr = remote_addr;
        }))

  -- Expired sessions and disabled users both come back as not_found.
  unfoldable pub session_user : String → Exec (Server env) SqlError (User × ℕ)
  session_user token_hash = do
    row ← query env (session_row token_hash)
    (u, s) ← or_exit not_found row
    let exp = s.expires_at * second
    t ← clock env
    exit_if (u.disabled || ltb exp t) not_found
    pure (u, exp)

  unfoldable pub slide_session : String → ℕ → Exec (Server env) SqlError (Unit {0})
  slide_session token_hash expires = do
    ts ← now env
    sql env (slide token_hash (expires / second) ts)

  unfoldable pub delete_session : String → Exec (Server env) SqlError (Unit {0})
  delete_session token_hash = sql env (drop_session token_hash)

  unfoldable pub reap_sessions : Exec (Server env) SqlError (Unit {0})
  reap_sessions = do ts ← now env; sql env (drop_stale ts)
