-- ===== src/Api/Access.antt =====
-- openvtld/internal/api/auth.go, requireAuth: who makes a request, and whether it may go on.
pub mod Kept
pub mod Known
pub mod Identity
use open_vtl.Prelude.Text.{ascii, starts_with, bytes_eq, format_int}
use open_vtl.Prelude.{
  ℕ, ◌+◌, ◌*◌, String, str_eq, Bool, true, false, not, ◌&&◌, ◌||◌, Option, none, some, List, [],
  ◌∷◌, ◌++◌, ltb, drop, if◌then◌else◌, ℤ, neg,
}
use open_vtl.Exec.{Result, ok, err, Exec, ◌>>=◌, ◌>>◌, pure, exit, exit_if, gets, modify, observe}
use open_vtl.Store.{Env, SqlError, User, ApiKey, Server, clock}
use open_vtl.Store.Users.{count_users}
use open_vtl.Store.Sessions.{second, session_user, slide_session}
use open_vtl.Store.ApiKeys.{api_key_by_hash, touch_api_key_row, api_keys_setting}
use open_vtl.Api.{
  Method, get, head, put, Request, method_of, path_of, Response, write_json, error_text,
  setup_required, replying,
}

-- Seven days and ten minutes, in nanoseconds.
abbrev pub session_window : ℕ
session_window = 7 * 24 * 3600 * second

abbrev pub slide_every : ℕ
slide_every = 10 * 60 * second

abbrev pub minute : ℕ
minute = 60 * second

-- Paths that never require a session.
unfoldable pub public_path : List ℕ → Bool
public_path p =
    bytes_eq p (ascii "/healthz")
    || bytes_eq p (ascii "/metrics")
    || (bytes_eq p (ascii "/api/auth/login")
        || bytes_eq p (ascii "/api/auth/setup")
        || bytes_eq p (ascii "/api/auth/me"))
    || not (starts_with (ascii "/api/") p)

unfoldable pub reads : Method → Bool
reads get = true
reads head = true
reads _ = false

abbrev pub is_put : Method → Bool
is_put put = true
is_put _ = false

-- The one mutation of a user that is no admin: PUT to its own password.
unfoldable pub is_own_password : Request → User → Bool
is_own_password req u =
    is_put (method_of req.call)
    && bytes_eq (path_of req.call) (ascii "/api/users/" ++ (format_int u.id ++ ascii "/password"))

unfoldable pub may_enter : Request → User → Bool
may_enter req u = reads (method_of req.call) || str_eq u.role "admin" || is_own_password req u

-- The identity of an API key: its id is negative, its name has a prefix.
unfoldable pub key_user : ApiKey → User
key_user k = record {
  id = neg k.id;
  username = ascii "key:" ++ k.name;
  password_hash = "";
  role = k.role;
  disabled = false;
  created_at = 0;
}

abbrev pub is_bearer : List ℕ → Bool
is_bearer h = starts_with (ascii "Bearer ovtl_") h

abbrev pub setup_reply : Response
setup_reply = write_json 409 setup_required

module _ (env : Env) where
  open env use {hash_token}

  -- The expiry moves once more than `slide_every` of its window is used up; an error is only logged.
  unfoldable pub slide_if_due : String → ℕ → Exec (Server env) Response (Unit {0})
  slide_if_due hash exp = do
    t ← clock env
    if ltb (exp + slide_every) (t + session_window)
        then (do t' ← clock env; observe (slide_session env hash (t' + session_window)); pure tt)
        else pure tt

  unfoldable pub with_session :
      String → Result SqlError (User × ℕ) → Exec (Server env) Response (Option User)
  with_session hash (err e) = pure none
  with_session hash (ok (u, exp)) = do slide_if_due hash exp; pure (some u)

  unfoldable pub by_session : Option (List ℕ) → Exec (Server env) Response (Option User)
  by_session none = pure none
  by_session (some []) = pure none
  by_session (some (c ∷ cs)) = do
    let hash = hash_token (c ∷ cs)
    found ← observe (session_user env hash)
    with_session hash found

  -- touchAPIKey; the clock is read only if the key was used before.
  unfoldable pub touch_after : ℕ → Option ℕ → Exec (Server env) Response (Unit {0})
  touch_after id none = do observe (touch_api_key_row env id); pure tt
  touch_after id (some last) = do
    t ← clock env
    if ltb t (last * second + minute)
        then pure tt
        else (do observe (touch_api_key_row env id); pure tt)

  unfoldable pub with_key : Result SqlError ApiKey → Exec (Server env) Response (Option User)
  with_key (err e) = pure none
  with_key (ok k) = do touch_after k.id k.last_used_at; pure (some (key_user k))

  unfoldable pub by_key : List ℕ → Exec (Server env) Response (Option User)
  by_key authorization =
      if is_bearer authorization
      then (do
        setting ← api_keys_setting env
        if str_eq setting "1"
            then (do
              found ← observe (api_key_by_hash env (hash_token (drop 7 authorization)))
              with_key found)
            else pure none)
      else pure none

  -- A session always wins over a key.
  unfoldable pub or_key : List ℕ → Option User → Exec (Server env) Response (Option User)
  or_key authorization (some u) = pure (some u)
  or_key authorization none = by_key authorization

  unfoldable pub authenticate : Request → Exec (Server env) Response (Option User)
  unfolding by_session by_key or_key
  authenticate req = do u ← by_session req.cookie; or_key req.authorization u

  -- The first-run gate: with no user nothing works but setup.
  unfoldable pub require_setup : Bool → Exec (Server env) Response (Unit {0})
  require_setup true = pure tt
  require_setup false = do
    n ← replying env (λ e. setup_reply) (count_users env)
    if ltb 0 n then modify (λ s. record s { setup_done = true }) else exit setup_reply

  unfoldable pub admit : Request → Option User → Exec (Server env) Response (Option User)
  admit req none = exit (write_json 401 (error_text "authentication required"))
  admit req (some u) = do
    exit_if (not (may_enter req u)) (write_json 403 (error_text "admin role required"))
    pure (some u)

  -- The identity with which the handler runs, or the response that keeps the request out.
  unfoldable pub require_auth : Request → Exec (Server env) Response (Option User)
  unfolding require_setup admit
  require_auth req = do
    u ← authenticate req
    if public_path (path_of req.call)
        then pure u
        else (do done ← gets (λ s. s.setup_done); require_setup done; admit req u)
