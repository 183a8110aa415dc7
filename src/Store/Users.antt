-- ===== src/Store/Users.antt =====
-- openvtld/internal/store/auth.go: the user table.
pub mod Numbered
pub mod Kept
use open_vtl.Prelude.Text.{eq_nocase}
use open_vtl.Prelude.{
  ℕ, suc, ◌+◌, String, str_eq, Bool, true, false, not, ◌&&◌, Option, none, some, List, [], ◌∷◌,
  ◌++◌, ltb, ◌==◌, if◌then◌else◌, ℤ, pos, int_eq, length, find, remove_rows, update_rows,
  count_rows,
}
use open_vtl.Exec.{Result, ok, err, Exec, ◌>>=◌, ◌>>◌, pure, exit_if, or_exit}
use open_vtl.Store.{
  Env, SqlError, not_found, constraint, User, Session, Tables, Server, Statement, sql, query, now,
}

abbrev pub has_id : ℤ → User → Bool
has_id id u = int_eq u.id id

-- The column is COLLATE NOCASE.
abbrev pub has_name : List ℕ → User → Bool
has_name username u = eq_nocase u.username username

unfoldable pub is_enabled_admin : User → Bool
is_enabled_admin u = str_eq u.role "admin" && not u.disabled

-- INSERT INTO user: a name that is taken violates UNIQUE.
unfoldable pub insert_user : (ℤ → User) → Tables → Result SqlError ℤ × Tables
insert_user row db =
    let id = pos db.next_user in
    if ltb 0 (count_rows (has_name (row id).username) db.users)
    then (err constraint, db)
    else (ok id, record db { users = db.users ++ row id ∷ []; next_user = db.next_user + 1 })

-- UPDATE user … WHERE id = ?, with the number of rows that it affects.
unfoldable pub change_user : (User → User) → ℤ → Tables → Result SqlError ℕ × Tables
change_user change id db = (
  ok (count_rows (has_id id) db.users),
  record db { users = update_rows (has_id id) change db.users },
)

unfoldable pub drop_user : ℤ → Tables → Result SqlError ℕ × Tables
drop_user id db =
    (ok (count_rows (has_id id) db.users), record db { users = remove_rows (has_id id) db.users })

abbrev of_user : ℤ → Session → Bool
of_user id s = int_eq s.user_id id

unfoldable pub drop_user_sessions : ℤ → Tables → Result SqlError (Unit {0}) × Tables
drop_user_sessions id db = (ok tt, record db { sessions = remove_rows (of_user id) db.sessions })

module _ (env : Env) where
  unfoldable pub count_users : Exec (Server env) SqlError ℕ
  count_users = query env (λ db. length db.users)

  unfoldable pub create_user_row : List ℕ → String → String → Exec (Server env) SqlError ℤ
  create_user_row username password_hash role = do
    ts ← now env
    sql env (
        insert_user (λ id. record {
          id = id;
          username = username;
          password_hash = password_hash;
          role = role;
          disabled = false;
          created_at = ts;
        }))

  unfoldable pub user_by_name : List ℕ → Exec (Server env) SqlError User
  user_by_name username = do
    row ← query env (λ db. find (has_name username) db.users)
    or_exit not_found row

  unfoldable pub user_by_id : ℤ → Exec (Server env) SqlError User
  user_by_id id = do row ← query env (λ db. find (has_id id) db.users); or_exit not_found row

  -- ORDER BY id: the rows are in the order of their ids.
  unfoldable pub list_users : Exec (Server env) SqlError (List User)
  list_users = query env (λ db. db.users)

  -- CountAdmins counts the enabled admins.
  unfoldable pub count_admins : Exec (Server env) SqlError ℕ
  count_admins = query env (λ db. count_rows is_enabled_admin db.users)

  unfoldable pub update_user_row : ℤ → String → Bool → Exec (Server env) SqlError (Unit {0})
  update_user_row id role disabled = do
    n ← sql env (change_user (λ u. record u { role = role; disabled = disabled }) id)
    exit_if (n == 0) not_found

  unfoldable pub set_password : ℤ → String → Exec (Server env) SqlError (Unit {0})
  set_password id password_hash = do
    n ← sql env (change_user (λ u. record u { password_hash = password_hash }) id)
    exit_if (n == 0) not_found

  -- The sessions go first, by a statement of their own.
  unfoldable pub delete_user_row : ℤ → Exec (Server env) SqlError (Unit {0})
  delete_user_row id = do
    sql env (drop_user_sessions id)
    n ← sql env (drop_user id)
    exit_if (n == 0) not_found
