-- ===== src/Api/Kept.antt =====
-- The handlers that do not change the user table, on any property of the table.
use open_vtl.Prelude.{ℕ, ◌+◌, String, Bool, not, ◌||◌, Option, none, some, List, [], ◌∷◌, ℤ}
use open_vtl.Exec.{Exec}
use open_vtl.Exec.Triple.{
  Triple, Ends, triple_bind, triple_seq, triple_pure, triple_exit, triple_exit_if, triple_or_exit,
  triple_on_error, triple_if,
}
use open_vtl.Store.{Env, SqlError, engine, not_found, constraint, User, Server}
use open_vtl.Store.View.{View, At, Keeps, clock-Keeps, observe-Keeps}
use open_vtl.Store.Kept.{
  audit_row-Keeps, create_session-Keeps, delete_session-Keeps, reap_sessions-Keeps,
  create_api_key-Keeps, list_api_keys-Keeps, delete_api_key_row-Keeps,
}
use open_vtl.Store.Users.Kept.{user_by_name-Keeps, user_by_id_lem, list_users-Keeps}
use open_vtl.Api.{
  Creds, NewKey, Request, Response, server_error, replying, audit_as, actor_of, audit,
}
use open_vtl.Api.Access.{session_window}
use open_vtl.Api.Login.{
  took, new_token, new_hash, issue_session, auth_fail, refuse_login, auth_login, forget_session,
  audit_logout, auth_logout, bad_json,
}
use open_vtl.Api.Users.{list_users_handler, bad_id}
use open_vtl.Api.Keys.{create_key, list_keys, delete_key}
use open_vtl.Exec.Triple.{triple_weaken}
use open_vtl.Exec.{exit_if}
use open_vtl.Exec.{or_exit}
use open_vtl.Store.Users.{user_by_id}

module _ (env : Env) where
  pub replying_lem :
      {A : Type 0} {P : Server env → Type 0} {Q : A → Server env → Type 0} {R : Server env → Type 0}
      {m : Exec (Server env) SqlError A} (reply : SqlError → Response)
      → Triple P m Q (λ _. R)
      → Triple P (replying env reply m) Q (λ _. R)
  unfolding replying
  replying_lem reply t = triple_on_error t (λ e. triple_exit (reply e) (λ s k. k))

module _ (env : Env) {K : View → Type 0} where
  pub user_by_id-Keeps : (id : ℤ) → Keeps env K (user_by_id env id)
  user_by_id-Keeps id =
      triple_weaken (λ s k. k) (λ u s k. record { held = k.held.0 }) (λ e s k. k)
        (user_by_id_lem env id)

  pub audit_as-Keeps :
      (actor addr : List ℕ) (action : String) (subject : List ℕ)
      → Keeps env K (audit_as env actor addr action subject)
  unfolding audit_as
  audit_as-Keeps actor addr action subject =
      triple_bind (observe-Keeps env (audit_row-Keeps env actor addr action subject))
        (λ r. triple_pure tt (λ s k. k))

  pub audit-Keeps :
      (req : Request) (me : Option User) (action : String) (subject : List ℕ)
      → Keeps env K (audit env req me action subject)
  unfolding audit
  audit-Keeps req me action subject =
      audit_as-Keeps (actor_of env me req.remote_addr) req.remote_addr action subject

  took-Keeps :
      {A : Type 0} (s : Server env)
      → At env K s
      → (x : Option A × env.World) → Ends (λ _. At env K) (λ _. At env K) (took env s x)
  took-Keeps s k (none, w) = record { held = k.held }
  took-Keeps s k (some a, w) = record { held = k.held }

  pub new_token-Keeps : Keeps env K (new_token env)
  new_token-Keeps = record { at = λ s k. took-Keeps s k (env.random_token s.world) }

  pub new_hash-Keeps : (password : List ℕ) → Keeps env K (new_hash env password)
  new_hash-Keeps password = record {
    at = λ s k. took-Keeps s k (env.hash_password password s.world);
  }

  pub issue_session-Keeps : (req : Request) (id : ℤ) → Keeps env K (issue_session env req id)
  unfolding issue_session
  issue_session-Keeps req id = triple_bind new_token-Keeps (λ raw.
      triple_bind (clock-Keeps env) (λ t.
        triple_seq
          (replying_lem env server_error
            (create_session-Keeps env (env.hash_token raw) id (t + session_window) req.remote_addr))
          (triple_bind (triple_on_error (user_by_id-Keeps id) (λ e. triple_exit _ (λ s k. k)))
            (λ u. triple_pure _ (λ s k. k)))))

  auth_fail-Keeps :
      {A : Type 0} (req : Request) (name : List ℕ) → Keeps env {A = A} K (auth_fail env req name)
  auth_fail-Keeps req name =
      triple_seq (audit_as-Keeps name req.remote_addr "auth.login_failed" name)
        (triple_exit _ (λ s k. k))

  refuse_login-Keeps :
      {A : Type 0} (req : Request) (name : List ℕ) (e : SqlError)
      → Keeps env {A = A} K (refuse_login env req name e)
  refuse_login-Keeps req name not_found = auth_fail-Keeps req name
  refuse_login-Keeps req name engine = triple_exit _ (λ s k. k)
  refuse_login-Keeps req name constraint = triple_exit _ (λ s k. k)

  pub auth_login-Keeps :
      (req : Request) (body : Option Creds) → Keeps env K (auth_login env req body)
  unfolding auth_login
  auth_login-Keeps req body =
      triple_bind (triple_or_exit {Q = λ _. At env K} bad_json body (λ e s k. k) (λ c e s k. k))
        (λ creds.
          triple_bind
            (triple_on_error (user_by_name-Keeps env creds.username)
              (λ e. refuse_login-Keeps req creds.username e))
            (λ u.
              triple_if (u.disabled || not (env.verify_password creds.password u.password_hash))
                (λ e. auth_fail-Keeps req creds.username)
                (λ e. triple_seq (observe-Keeps env (reap_sessions-Keeps env)) (
                  triple_seq (audit_as-Keeps u.username req.remote_addr "auth.login" u.username)
                    (issue_session-Keeps req u.id)))))

  forget_session-Keeps : (cookie : Option (List ℕ)) → Keeps env K (forget_session env cookie)
  forget_session-Keeps none = triple_pure tt (λ s k. k)
  forget_session-Keeps (some []) = triple_pure tt (λ s k. k)
  forget_session-Keeps (some (c ∷ cs)) =
      triple_bind (observe-Keeps env (delete_session-Keeps env (env.hash_token (c ∷ cs))))
        (λ r. triple_pure tt (λ s k. k))

  audit_logout-Keeps : (req : Request) (me : Option User) → Keeps env K (audit_logout env req me)
  audit_logout-Keeps req none = triple_pure tt (λ s k. k)
  audit_logout-Keeps req (some u) =
      audit_as-Keeps u.username req.remote_addr "auth.logout" u.username

  pub auth_logout-Keeps : (req : Request) (me : Option User) → Keeps env K (auth_logout env req me)
  unfolding auth_logout
  auth_logout-Keeps req me =
      triple_seq (forget_session-Keeps req.cookie)
        (triple_seq (audit_logout-Keeps req me) (triple_pure _ (λ s k. k)))

  pub list_users_handler-Keeps : Keeps env K (list_users_handler env)
  unfolding list_users_handler
  list_users_handler-Keeps =
      triple_bind (replying_lem env server_error (list_users-Keeps env))
        (λ us. triple_pure _ (λ s k. k))

  pub list_keys-Keeps : Keeps env K (list_keys env)
  unfolding list_keys
  list_keys-Keeps =
      triple_bind (replying_lem env server_error (list_api_keys-Keeps env))
        (λ ks. triple_pure _ (λ s k. k))

  -- A guard that only ends the handler.
  pub guard-Keeps : (b : Bool) (e : Response) → Keeps env K (exit_if b e)
  guard-Keeps b e = triple_exit_if b e (λ t s k. k) (λ t s k. k)

  pub body-Keeps : {A : Type 0} (e : Response) (o : Option A) → Keeps env K (or_exit e o)
  body-Keeps e o = triple_or_exit e o (λ t s k. k) (λ a t s k. k)

  pub delete_key-Keeps :
      (req : Request) (me : Option User) (segment : List ℕ)
      → Keeps env K (delete_key env req me segment)
  unfolding delete_key
  delete_key-Keeps req me segment = triple_bind (body-Keeps bad_id _) (λ id.
      triple_bind (replying_lem env _ (delete_api_key_row-Keeps env id))
        (λ name. triple_seq (audit-Keeps req me "apikey.delete" name) (triple_pure _ (λ s k. k))))

  pub create_key-Keeps :
      (trim : List ℕ → List ℕ) (req : Request) (me : Option User) (body : Option NewKey)
      → Keeps env K (create_key env trim req me body)
  unfolding create_key
  create_key-Keeps trim req me body = triple_bind (body-Keeps bad_json body) (λ new.
      triple_seq (guard-Keeps _ _) (
        triple_seq (guard-Keeps _ _) (
          triple_seq (guard-Keeps _ _) (
            triple_bind new_token-Keeps (λ raw.
              triple_bind (replying_lem env _ (create_api_key-Keeps env _ _ _ _)) (λ id.
                triple_seq (audit-Keeps req me "apikey.create" _) (triple_pure _ (λ s k. k))))))))
