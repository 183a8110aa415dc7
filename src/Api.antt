-- ===== src/Api.antt =====
-- openvtld/internal/api: the requests that reach the daemon and what it answers. A request carries
-- its headers and the call that the router makes of its method, path and decoded body.
pub mod Access
pub mod Login
pub mod Users
pub mod Keys
pub mod Serve
pub mod Kept
pub mod Admission
pub mod Governed
use open_vtl.Prelude.Text.{ascii}
use open_vtl.Prelude.{ℕ, String, Bool, true, false, Option, none, some, List, [], ◌∷◌, ◌++◌, ℤ}
use open_vtl.Exec.{Result, ok, err, Exec, ◌>>=◌, ◌>>◌, pure, on_error, observe, exit}
use open_vtl.Store.{Env, SqlError, User, ApiKey, Server, audit_row}

pub record Creds : Type 0 where
  pub username : List ℕ
  pub password : List ℕ

pub record NewUser : Type 0 where
  pub creds : Creds
  pub role : String

-- An empty role and an absent flag leave the user as it is.
pub record UserChange : Type 0 where
  pub role : String
  pub disabled : Option Bool

pub record NewKey : Type 0 where
  pub name : List ℕ
  pub role : String

-- A body is `none` if it is not the JSON that the handler decodes; an `id` is the path's segment.
pub data Call : Type 0 where
  call_setup call_login : Option Creds → Call
  call_logout call_me call_list_users call_list_keys : Call
  call_create_user : Option NewUser → Call
  call_update_user : List ℕ → Option UserChange → Call
  call_set_password : List ℕ → Option (List ℕ) → Call
  call_delete_user : List ℕ → Call
  call_create_key : Option NewKey → Call
  call_delete_key : List ℕ → Call

pub data Method : Type 0 where
  get head post put delete : Method

-- The headers: the session cookie, Authorization, and the peer's address.
pub record Request : Type 0 where
  pub cookie : Option (List ℕ)
  pub authorization : List ℕ
  pub remote_addr : List ℕ
  pub call : Call

unfoldable pub method_of : Call → Method
method_of (call_setup body) = post
method_of (call_login body) = post
method_of call_logout = post
method_of call_me = get
method_of call_list_users = get
method_of call_list_keys = get
method_of (call_create_user body) = post
method_of (call_update_user id body) = put
method_of (call_set_password id body) = put
method_of (call_delete_user id) = delete
method_of (call_create_key body) = post
method_of (call_delete_key id) = delete

unfoldable pub path_of : Call → List ℕ
path_of (call_setup body) = ascii "/api/auth/setup"
path_of (call_login body) = ascii "/api/auth/login"
path_of call_logout = ascii "/api/auth/logout"
path_of call_me = ascii "/api/auth/me"
path_of call_list_users = ascii "/api/users"
path_of call_list_keys = ascii "/api/apikeys"
path_of (call_create_user body) = ascii "/api/users"
path_of (call_update_user id body) = ascii "/api/users/" ++ id
path_of (call_set_password id body) = ascii "/api/users/" ++ (id ++ ascii "/password")
path_of (call_delete_user id) = ascii "/api/users/" ++ id
path_of (call_create_key body) = ascii "/api/apikeys"
path_of (call_delete_key id) = ascii "/api/apikeys/" ++ id

-- The text of a message stands without the decoder's or the engine's own words.
pub data Body : Type 0 where
  error_text : String → Body
  setup_required ok_body : Body
  user_body : Option User → Body
  users_body : List User → Body
  keys_body : List ApiKey → Body
  -- the id, the name, the role and the only copy of the token
  new_key_body : ℕ → List ℕ → String → List ℕ → Body

-- The cookie that it sets is a value and its expiry in nanoseconds.
pub record Response : Type 0 where
  pub status : ℕ
  pub body : Body
  pub set_cookie : Option (List ℕ × ℕ)

abbrev pub write_json : ℕ → Body → Response
write_json status body = record { status = status; body = body; set_cookie = none }

abbrev pub bad_request : String → Response
bad_request text = write_json 400 (error_text text)

abbrev pub sql_text : SqlError → String
sql_text SqlError.engine = "engine error"
sql_text SqlError.not_found = "not found"
sql_text SqlError.constraint = "constraint failed"

abbrev pub server_error : SqlError → Response
server_error e = write_json 500 (error_text (sql_text e))

module _ (env : Env) where
  abbrev pub Handler : Type 0
  Handler = Exec (Server env) Response Response

  -- A call whose error is the handler's end, by a response that may show it.
  unfoldable pub replying :
      {A : Type 0}
      → (SqlError → Response)
      → Exec (Server env) SqlError A
      → Exec (Server env) Response A
  replying reply = on_error (λ e. exit (reply e))

  -- An audit row that cannot be written is dropped.
  unfoldable pub audit_as :
      List ℕ → List ℕ → String → List ℕ → Exec (Server env) Response (Unit {0})
  audit_as actor remote_addr action subject = do
    observe (audit_row env actor remote_addr action subject)
    pure tt

  abbrev pub actor_of : Option User → List ℕ → List ℕ
  actor_of none remote_addr = remote_addr
  actor_of (some u) remote_addr = u.username

  -- openvtld/internal/api/jobs.go, audit: the actor is the session's user, or the address.
  unfoldable pub audit :
      Request → Option User → String → List ℕ → Exec (Server env) Response (Unit {0})
  audit req me action subject =
      audit_as (actor_of me req.remote_addr) req.remote_addr action subject
