-- ===== src/Api/Serve.antt =====
-- openvtld/internal/api/server.go: the routes of sessions, users and API keys behind requireAuth, and
-- a run of requests one after the other.
use open_vtl.Prelude.{ℕ, Option, List, [], ◌∷◌}
use open_vtl.Exec.{◌>>=◌}
use open_vtl.Store.{Env, User, Server}
use open_vtl.Api.{
  Call, call_setup, call_login, call_logout, call_me, call_list_users, call_list_keys,
  call_create_user, call_update_user, call_set_password, call_delete_user, call_create_key,
  call_delete_key, Request, Handler,
}
use open_vtl.Api.Access.{require_auth}
use open_vtl.Api.Login.{auth_setup, auth_login, auth_logout, auth_me}
use open_vtl.Api.Users.{
  list_users_handler, create_user, update_user, set_user_password, delete_user,
}
use open_vtl.Api.Keys.{create_key, list_keys, delete_key}

module _ (env : Env) (trim_space : List ℕ → List ℕ) where
  unfoldable pub dispatch : Request → Option User → Call → Handler env
  dispatch req me (call_setup body) = auth_setup env req body
  dispatch req me (call_login body) = auth_login env req body
  dispatch req me call_logout = auth_logout env req me
  dispatch req me call_me = auth_me env me
  dispatch req me call_list_users = list_users_handler env
  dispatch req me call_list_keys = list_keys env
  dispatch req me (call_create_user body) = create_user env req me body
  dispatch req me (call_update_user id body) = update_user env req me id body
  dispatch req me (call_set_password id body) = set_user_password env req me id body
  dispatch req me (call_delete_user id) = delete_user env req me id
  dispatch req me (call_create_key body) = create_key env trim_space req me body
  dispatch req me (call_delete_key id) = delete_key env req me id

  unfoldable pub serve : Request → Handler env
  serve req = do me ← require_auth env req; dispatch req me req.call

  -- The daemon after a list of requests, whatever each answered.
  unfoldable pub serve_all : List Request → Server env → Server env
  serve_all [] s = s
  serve_all (req ∷ reqs) s = serve_all reqs (serve req s).1
