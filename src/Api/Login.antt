-- ===== src/Api/Login.antt =====
-- openvtld/internal/api/auth.go: first-run setup, login, logout and the state of the login page.
pub mod Verified
use open_vtl.Prelude.{
  ℕ, ◌+◌, String, str_eq, Bool, true, false, not, ◌&&◌, ◌||◌, Option, none, some, List, [], ◌∷◌,
  length, ltb, leb, ◌==◌, if◌then◌else◌, ℤ,
}
use open_vtl.Exec.{
  Result, ok, err, Exec, ◌>>=◌, ◌>>◌, pure, exit, exit_if, or_exit, gets, modify, observe, on_error,
}
use open_vtl.Store.{Env, SqlError, not_found, engine, constraint, User, Server, clock}
use open_vtl.Store.Users.{count_users, create_user_row, user_by_name, user_by_id}
use open_vtl.Store.Sessions.{create_session, delete_session, reap_sessions}
use open_vtl.Api.{
  Creds, Request, Response, write_json, bad_request, server_error, error_text, setup_required,
  ok_body, user_body, Handler, replying, audit_as,
}
use open_vtl.Api.Access.{session_window}

unfoldable pub is_name_byte : ℕ → Bool
is_name_byte c =
    leb b'a' c && leb c b'z'
    || leb b'A' c && leb c b'Z'
    || leb b'0' c && leb c b'9'
    || c == b'_'
    || c == b'-'
    || c == b'.'

unfoldable pub are_name_bytes : List ℕ → Bool
unfolding is_name_byte
are_name_bytes [] = true
are_name_bytes (c ∷ cs) = is_name_byte c && are_name_bytes cs

-- validateCreds: the complaint, if there is one.
unfoldable pub validate_creds : Creds → Option String
unfolding are_name_bytes
validate_creds creds =
    if ltb (length creds.username) 2 || ltb 64 (length creds.username)
    then some "username must be 2-64 characters"
    else (if not (are_name_bytes creds.username)
        then some "username may contain letters, digits, . _ -"
        else (if ltb (length creds.password) 8
            then some "password must be at least 8 characters"
            else none))

abbrev pub reject_creds : {S : Type 0} → Option String → Exec S Response (Unit {0})
reject_creds none = pure tt
reject_creds (some complaint) = exit (bad_request complaint)

abbrev pub bad_json : Response
bad_json = bad_request "bad json"

module _ (env : Env) where
  open env use {World, random_token, hash_token, hash_password, verify_password}

  abbrev pub took : {A : Type 0} → Server env → Option A × World → Result Response A × Server env
  took s (none, w) = (err (write_json 500 (error_text "random")), record s { world = w })
  took s (some a, w) = (ok a, record s { world = w })

  -- auth.NewToken and auth.HashPassword fail only when the random generator does.
  abbrev pub new_token : Exec (Server env) Response (List ℕ)
  new_token s = took s (random_token s.world)

  abbrev pub new_hash : List ℕ → Exec (Server env) Response String
  new_hash password s = took s (hash_password password s.world)

  unfoldable pub issue_session : Request → ℤ → Handler env
  issue_session req user_id = do
    raw ← new_token
    t ← clock env
    let exp = t + session_window
    replying env server_error (create_session env (hash_token raw) user_id exp req.remote_addr)
    u ←
        on_error (λ e. exit (record (server_error e) { set_cookie = some (raw, exp) }))
          (user_by_id env user_id)
    pure (record { status = 200; body = user_body (some u); set_cookie = some (raw, exp) })

  unfoldable pub auth_setup : Request → Option Creds → Handler env
  auth_setup req body = do
    creds ← or_exit bad_json body
    reject_creds (validate_creds creds)
    n ← replying env server_error (count_users env)
    exit_if (ltb 0 n) (write_json 403 (error_text "setup already completed"))
    hash ← new_hash creds.password
    id ← replying env server_error (create_user_row env creds.username hash "admin")
    modify (λ s. record s { setup_done = true })
    audit_as env creds.username req.remote_addr "auth.setup" creds.username
    issue_session req id

  -- The same answer for an unknown user and a wrong password.
  abbrev pub auth_fail : {A : Type 0} → Request → List ℕ → Exec (Server env) Response A
  auth_fail req username = do
    audit_as env username req.remote_addr "auth.login_failed" username
    exit (write_json 401 (error_text "invalid credentials"))

  abbrev pub refuse_login :
      {A : Type 0} → Request → List ℕ → SqlError → Exec (Server env) Response A
  refuse_login req username not_found = auth_fail req username
  refuse_login req username e = exit (server_error e)

  unfoldable pub auth_login : Request → Option Creds → Handler env
  auth_login req body = do
    creds ← or_exit bad_json body
    u ← on_error (λ e. refuse_login req creds.username e) (user_by_name env creds.username)
    if u.disabled || not (verify_password creds.password u.password_hash)
        then auth_fail req creds.username
        else (do
          observe (reap_sessions env)
          audit_as env u.username req.remote_addr "auth.login" u.username
          issue_session req u.id)

  abbrev pub forget_session : Option (List ℕ) → Exec (Server env) Response (Unit {0})
  forget_session none = pure tt
  forget_session (some []) = pure tt
  forget_session (some (c ∷ cs)) = do observe (delete_session env (hash_token (c ∷ cs))); pure tt

  abbrev pub audit_logout : Request → Option User → Exec (Server env) Response (Unit {0})
  audit_logout req none = pure tt
  audit_logout req (some u) = audit_as env u.username req.remote_addr "auth.logout" u.username

  unfoldable pub auth_logout : Request → Option User → Handler env
  auth_logout req me = do
    forget_session req.cookie
    audit_logout req me
    pure (record { status = 200; body = ok_body; set_cookie = some ([], 0) })

  -- authMe reports the setup state, an anonymous client or the user, always with status 200.
  abbrev pub report_setup : Bool → Exec (Server env) Response (Unit {0})
  report_setup true = pure tt
  report_setup false = do
    n ← replying env (λ e. write_json 200 setup_required) (count_users env)
    if ltb 0 n
        then modify (λ s. record s { setup_done = true })
        else exit (write_json 200 setup_required)

  unfoldable pub auth_me : Option User → Handler env
  auth_me me = do
    done ← gets (λ s. s.setup_done)
    report_setup done
    pure (write_json 200 (user_body me))
