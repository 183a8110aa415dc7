-- ===== src/Store/Users/Kept.antt =====
-- What the queries and the changes of the user table do to a property of the table.
use open_vtl.Prelude.{
  ℕ, ◌+◌, ◌≡◌, String, Bool, true, false, Option, some, List, [], ◌∷◌, ◌++◌, ltb, ◌==◌, length, ℤ,
  pos, find, remove_rows, update_rows, count_rows, if◌then◌else◌,
}
use open_vtl.Exec.{ok, err}
use open_vtl.Exec.Triple.{Triple, triple_bind, triple_seq, triple_exit_if, triple_or_exit}
use open_vtl.Store.{constraint, Env, not_found, User, Tables}
use open_vtl.Store.View.{
  View, view, At, At-map, Keeps, Effect, sql_triple, query_users, query-Keeps, now-Keeps,
}
use open_vtl.Store.Users.{
  has_id, has_name, is_enabled_admin, insert_user, change_user, drop_user, drop_user_sessions,
  count_users, create_user_row, user_by_name, user_by_id, list_users, count_admins, update_user_row,
  set_password, delete_user_row,
}
use open_vtl.Store.{sql}

module _ (env : Env) {K : View → Type 0} where
  pub count_users_lem :
      Triple
        (At env K)
        (count_users env)
        (λ n. At env (λ v. K v × (n ≡ length v.users)))
        (λ _. At env K)
  unfolding count_users
  count_users_lem = query_users env length

  pub count_admins_lem :
      Triple
        (At env K)
        (count_admins env)
        (λ n. At env (λ v. K v × (n ≡ count_rows is_enabled_admin v.users)))
        (λ _. At env K)
  unfolding count_admins
  count_admins_lem = query_users env (count_rows is_enabled_admin)

  pub list_users-Keeps : Keeps env K (list_users env)
  unfolding list_users
  list_users-Keeps = query-Keeps env (λ db. db.users)

  pub user_by_id_lem :
      (id : ℤ)
      → Triple
          (At env K)
          (user_by_id env id)
          (λ u. At env (λ v. K v × (find (has_id id) v.users ≡ some u)))
          (λ _. At env K)
  unfolding user_by_id
  user_by_id_lem id = triple_bind (query_users env (find (has_id id))) (λ row.
      triple_or_exit not_found row (λ e s k. At-map env (λ v h. h.0) s k)
        (λ u e s k. At-map env (λ v h. (h.0, sym_trans h.1 e)) s k))
    where
      sym_trans : {x y z : Option User} → x ≡ y → x ≡ z → y ≡ z
      sym_trans p q = cc

  pub user_by_name-Keeps : (name : List ℕ) → Keeps env K (user_by_name env name)
  unfolding user_by_name
  user_by_name-Keeps name =
      triple_bind (query-Keeps env (λ db. find (has_name name) db.users))
        (λ row. triple_or_exit not_found row (λ e s k. k) (λ u e s k. k))

  -- An UPDATE of one id, then the check that a row was affected.
  change_user_lem :
      (K' : View → Type 0) (change : User → User) (id : ℤ)
      → ((v : View) → K v → K' v)
      → ((v : View) → K v → K' (record v { users = update_rows (has_id id) change v.users }))
      → Triple (At env K) (sql env (change_user change id)) (λ n. At env K') (λ _. At env K')
  unfolding change_user
  change_user_lem K' change id same changed =
      sql_triple env (change_user change id) same (λ db done k. changed (view db done) k)

  pub update_user_row_lem :
      (K' : View → Type 0) (id : ℤ) (role : String) (disabled : Bool)
      → ((v : View) → K v → K' v)
      → ((v : View)
          → K v
          → K' (record v {
            users =
                update_rows
                  (has_id id)
                  (λ u. record u { role = role; disabled = disabled })
                  v.users;
          }))
      → Triple (At env K) (update_user_row env id role disabled) (λ _. At env K') (λ _. At env K')
  unfolding update_user_row
  update_user_row_lem K' id role disabled same changed =
      triple_bind
        (change_user_lem K' (λ u. record u { role = role; disabled = disabled }) id same changed)
        (λ n. triple_exit_if (n == 0) not_found (λ e s k. k) (λ e s k. k))

  pub set_password_lem :
      (K' : View → Type 0) (id : ℤ) (hash : String)
      → ((v : View) → K v → K' v)
      → ((v : View)
          → K v
          → K' (record v {
            users = update_rows (has_id id) (λ u. record u { password_hash = hash }) v.users;
          }))
      → Triple (At env K) (set_password env id hash) (λ _. At env K') (λ _. At env K')
  unfolding set_password
  set_password_lem K' id hash same changed =
      triple_bind (change_user_lem K' (λ u. record u { password_hash = hash }) id same changed)
        (λ n. triple_exit_if (n == 0) not_found (λ e s k. k) (λ e s k. k))

  pub delete_user_row_lem :
      (K' : View → Type 0) (id : ℤ)
      → ((v : View) → K v → K' v)
      → ((v : View) → K v → K' (record v { users = remove_rows (has_id id) v.users }))
      → Triple (At env K) (delete_user_row env id) (λ _. At env K') (λ _. At env K')
  unfolding delete_user_row drop_user drop_user_sessions
  delete_user_row_lem K' id same changed =
      triple_seq (sql_triple env (drop_user_sessions id) same (λ db done k. k)) (
        triple_bind (sql_triple env (drop_user id) same (λ db done k. changed (view db done) k))
          (λ n. triple_exit_if (n == 0) not_found (λ e s k. k) (λ e s k. k)))

  -- A new row has the next id, the given name, hash and role, and is enabled.
  pub create_user_row_lem :
      (K' : View → Type 0) (name : List ℕ) (hash role : String)
      → ((v : View)
          → K v
          → (ts : ℕ)
          → K' (record v {
            users =
                v.users
                ++ record {
                  id = pos v.next_user;
                  username = name;
                  password_hash = hash;
                  role = role;
                  disabled = false;
                  created_at = ts;
                }
                  ∷ [];
            next_user = v.next_user + 1;
          }))
      → Triple (At env K) (create_user_row env name hash role) (λ _. At env K') (λ _. At env K)
  unfolding create_user_row insert_user
  create_user_row_lem K' name hash role inserted = triple_bind (now-Keeps env) (λ ts.
      sql_triple env (insert_user (row_of ts)) (λ v k. k)
        (λ db done k. outcome ts db done k (ltb 0 (count_rows (has_name name) db.users))))
    where
      row_of : ℕ → ℤ → User
      row_of ts id = record {
        id = id;
        username = name;
        password_hash = hash;
        role = role;
        disabled = false;
        created_at = ts;
      }

      outcome :
          (ts : ℕ) (db : Tables) (done : Bool)
          → K (view db done)
          → (taken : Bool)
          → Effect env
              (λ _. K')
              K
              done
              (if taken then (err constraint, db) else (
                ok (pos db.next_user),
                record db {
                  users = db.users ++ row_of ts (pos db.next_user) ∷ [];
                  next_user = db.next_user + 1;
                },
              ))
      outcome ts db done k true = k
      outcome ts db done k false = inserted (view db done) k ts
