-- ===== src/Api/Users.antt =====
-- openvtld/internal/api/auth.go: the management of users, whose roles the middleware has checked.
pub mod Admins
use open_vtl.Prelude.Text.{parse_int}
use open_vtl.Prelude.{
  ℕ, String, str_eq, Bool, true, false, not, ◌&&◌, ◌||◌, Option, none, some, List, [], ◌∷◌, length,
  ltb, leb, if◌then◌else◌, ℤ, int_eq,
}
use open_vtl.Exec.{
  Result, ok, err, Exec, ◌>>=◌, ◌>>◌, pure, exit, exit_if, or_exit, observe, on_error,
}
use open_vtl.Store.{Env, SqlError, User, Server}
use open_vtl.Store.Users.{
  create_user_row, user_by_id, list_users, count_admins, update_user_row, set_password,
  delete_user_row,
}
use open_vtl.Api.{
  NewUser, UserChange, Request, Response, write_json, bad_request, server_error, sql_text,
  error_text, ok_body, user_body, users_body, Handler, replying, audit,
}
use open_vtl.Api.Login.{validate_creds, reject_creds, bad_json, new_hash}

unfoldable pub is_valid_role : String → Bool
is_valid_role r = str_eq r "admin" || str_eq r "readonly"

abbrev pub bad_role : Response
bad_role = bad_request "role must be admin or readonly"

abbrev pub bad_id : Response
bad_id = bad_request "bad id"

abbrev pub unknown_user : Response
unknown_user = write_json 404 (error_text "unknown user")

-- A user that the reply shows, or null.
abbrev pub shown : {A : Type 0} → Result SqlError A → Option A
shown (ok a) = some a
shown (err e) = none

abbrev pub or_same : Bool → Option Bool → Bool
or_same same none = same
or_same same (some b) = b

-- An enabled admin, who counts for the last-admin rule.
unfoldable pub counts : User → Bool
counts u = str_eq u.role "admin" && not u.disabled

module _ (env : Env) where
  unfoldable pub list_users_handler : Handler env
  list_users_handler = do
    users ← replying env server_error (list_users env)
    pure (write_json 200 (users_body users))

  unfoldable pub create_user : Request → Option User → Option NewUser → Handler env
  create_user req me body = do
    new ← or_exit bad_json body
    reject_creds (validate_creds new.creds)
    exit_if (not (is_valid_role new.role)) bad_role
    hash ← new_hash env new.creds.password
    id ←
        replying env (λ e. bad_request (sql_text e))
          (create_user_row env new.creds.username hash new.role)
    audit env req me "user.create" new.creds.username
    u ← observe (user_by_id env id)
    pure (write_json 201 (user_body (shown u)))

  -- The role that the change asks for; empty keeps the old one.
  abbrev pub new_role : User → String → Exec (Server env) Response String
  new_role u role =
      if str_eq role ""
      then pure u.role
      else (do exit_if (not (is_valid_role role)) bad_role; pure role)

  -- Never the last enabled admin: `loses` says that the user is one and would not be one any more.
  unfoldable pub keep_last_admin : Bool → String → Exec (Server env) Response (Unit {0})
  keep_last_admin loses text =
      if loses
      then (do
        n ← replying env server_error (count_admins env)
        exit_if (leb n 1) (bad_request text))
      else pure tt

  unfoldable pub update_user : Request → Option User → List ℕ → Option UserChange → Handler env
  update_user req me segment body = do
    id ← or_exit bad_id (parse_int segment)
    change ← or_exit bad_json body
    u ← replying env (λ e. unknown_user) (user_by_id env id)
    role ← new_role u change.role
    let disabled = or_same u.disabled change.disabled
    keep_last_admin (counts u && (not (str_eq role "admin") || disabled))
        "cannot demote or disable the last admin"
    replying env server_error (update_user_row env id role disabled)
    audit env req me "user.update" u.username
    out ← observe (user_by_id env id)
    pure (write_json 200 (user_body (shown out)))

  -- The middleware lets no request without a user reach this handler.
  unfoldable pub own_or_admin : Option User → ℤ → Exec (Server env) Response (Unit {0})
  own_or_admin none id = exit (write_json 500 (error_text "nil user"))
  own_or_admin (some me) id =
      exit_if (not (str_eq me.role "admin") && not (int_eq me.id id))
        (write_json 403 (error_text "may only change your own password"))

  unfoldable pub set_user_password : Request → Option User → List ℕ → Option (List ℕ) → Handler env
  set_user_password req me segment body = do
    id ← or_exit bad_id (parse_int segment)
    own_or_admin me id
    password ← or_exit bad_json body
    exit_if (ltb (length password) 8) (bad_request "password must be at least 8 characters")
    u ← replying env (λ e. unknown_user) (user_by_id env id)
    hash ← new_hash env password
    replying env server_error (set_password env id hash)
    audit env req me "user.password" u.username
    pure (write_json 200 ok_body)

  unfoldable pub delete_user : Request → Option User → List ℕ → Handler env
  delete_user req me segment = do
    id ← or_exit bad_id (parse_int segment)
    u ← replying env (λ e. unknown_user) (user_by_id env id)
    keep_last_admin (counts u) "cannot delete the last admin"
    replying env server_error (delete_user_row env id)
    audit env req me "user.delete" u.username
    pure (write_json 200 ok_body)
