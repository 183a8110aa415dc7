-- ===== src/Tests/Api.antt =====
-- Runs of the daemon's accounts at concrete inputs (openvtld/internal/api/auth.go).
use open_vtl.Prelude.Text.{ascii, bytes_eq, starts_with, lower, eq_nocase, parse_int}
use open_vtl.Prelude.{
  ℕ, ◌+◌, ◌≤◌, ◌≡◌, ◌≢◌, refl, str_eq, Bool, true, false, Option, none, some, List, [], ◌∷◌, arith,
  if◌then◌else◌, pos, map, inl, false_is_not_true, find, remove_rows, count_rows,
}
use open_vtl.Exec.{ok, exit_if, or_exit}
use open_vtl.Store.{Env, User, Session, Tables, Server, sql, query, clock, now, audit_row}
use open_vtl.Store.View.{At}
use open_vtl.Store.Users.{
  insert_user, count_users, create_user_row, user_by_name, user_by_id, count_admins,
  is_enabled_admin,
}
use open_vtl.Store.Users.Numbered.{Numbered}
use open_vtl.Store.Sessions.{
  second, insert_session, session_row, drop_stale, create_session, session_user, reap_sessions,
}
use open_vtl.Api.{
  Call, call_setup, call_login, call_logout, call_delete_user, call_list_users, Creds, Request,
  method_of, path_of, replying, audit_as,
}
use open_vtl.Api.Access.{
  public_path, reads, may_enter, slide_if_due, with_session, by_session, or_key, authenticate,
  require_setup, admit, require_auth,
}
use open_vtl.Api.Access.Known.{IsAuthentic}
use open_vtl.Api.Access.Identity.{IsAllowed, require_auth_lem, logout_needs_admin}
use open_vtl.Api.Admission.{IsGoverned}
use open_vtl.Api.Governed.{serve_all-IsGoverned}
use open_vtl.Api.Login.{are_name_bytes, validate_creds, issue_session, auth_setup, auth_login}
use open_vtl.Api.Login.Verified.{IsVerified, reply_of, login_verified, setup_once}
use open_vtl.Api.Users.{keep_last_admin, counts, delete_user}
use open_vtl.Api.Serve.{dispatch, serve, serve_all}

-- A machine on which nothing fails; the world is its clock, which starts at one second.
abbrev pub calm : Env
calm = record {
  World = ℕ;
  engine_error = λ w. (false, w);
  time_now = λ w. (second + w, w + 1);
  random_token = λ w. (some (ascii "tok"), w);
  hash_token = λ t. if bytes_eq t (ascii "tok") then "hash" else "other";
  hash_password = λ p w. (some (if bytes_eq p (ascii "password") then "right" else "wrong"), w);
  verify_password = λ p h. str_eq h (if bytes_eq p (ascii "password") then "right" else "wrong");
}

abbrev pub creds : Creds
creds = record { username = ascii "root"; password = ascii "password" }

abbrev pub empty_tables : Tables
empty_tables = record {
  users = [];
  next_user = 1;
  sessions = [];
  api_keys = [];
  next_key = 1;
  api_keys_enabled = none;
  audit_log = [];
  jobs = [];
  next_job = 1;
  job_events = [];
  next_event = 1;
  export_chunks = [];
  initiator_acl = [];
  settings = [];
}

abbrev fresh : Server calm
fresh = record { db = empty_tables; setup_done = false; world = 0 }

abbrev pub root : User
root = record {
  id = pos 1;
  username = ascii "root";
  password_hash = "right";
  role = "admin";
  disabled = false;
  created_at = 1;
}

abbrev pub session : Session
session = record {
  token_hash = "hash";
  user_id = pos 1;
  created_at = 1;
  expires_at = 604801;
  last_seen = 1;
  remote_addr = [];
}

abbrev pub running : Server calm
running = record {
  db = record empty_tables { users = root ∷ []; next_user = 2; sessions = session ∷ [] };
  setup_done = true;
  world = 0;
}

abbrev request : Option (List ℕ) → Call → Request
request cookie call = record { cookie = cookie; authorization = []; remote_addr = []; call = call }

abbrev logout : Request
logout = request (some (ascii "tok")) call_logout

abbrev listing : Request
listing = request (some (ascii "tok")) call_list_users

abbrev day_one : List Request
day_one =
    request none (call_setup (some creds))
    ∷ request (some (ascii "tok")) (call_delete_user (ascii "1"))
    ∷ []

abbrev trim : List ℕ → List ℕ
trim name = name

fresh-IsGoverned : At calm IsGoverned fresh
unfolding Numbered
fresh-IsGoverned = record { held = record { numbered = omega arith; governed = inl (refl, refl) } }

serve_all-IsGoverned_example : At calm IsGoverned (serve_all calm trim day_one fresh)
serve_all-IsGoverned_example = serve_all-IsGoverned calm trim day_one fresh fresh-IsGoverned

-- The only admin, who deletes itself, is still there.
last_admin_stays :
    map (λ u. u.username) (serve_all calm trim day_one fresh).db.users ≡ ascii "root" ∷ []
unfolding serve_all serve dispatch require_auth authenticate by_session with_session slide_if_due
    or_key require_setup admit public_path path_of starts_with auth_setup issue_session
    validate_creds are_name_bytes exit_if or_exit replying sql query clock now count_users
    create_user_row insert_user audit_as audit_row create_session insert_session user_by_id
    session_user session_row find may_enter reads method_of delete_user parse_int keep_last_admin
    counts count_admins count_rows is_enabled_admin
last_admin_stays = refl

at_second : (w : ℕ) → second ≤ second + w
at_second w = omega arith

enters : (require_auth calm listing running).0 ≡ ok (some root)
unfolding require_auth authenticate by_session with_session slide_if_due or_key session_user query
    sql require_setup admit public_path path_of starts_with clock exit_if or_exit session_row find
    may_enter reads method_of
enters = refl

require_auth_lem_example :
    (u : User) × (some root ≡ some u)
    × IsAuthentic calm second at_second running.db listing u
    × IsAllowed calm second at_second running.db listing u
unfolding public_path path_of starts_with
require_auth_lem_example = require_auth_lem calm second at_second listing running refl enters

logs_out : (require_auth calm logout running).0 ≡ ok (some root)
unfolding require_auth authenticate by_session with_session slide_if_due or_key session_user query
    sql require_setup admit public_path path_of starts_with clock exit_if or_exit session_row find
    may_enter reads method_of
logs_out = refl

logout_needs_admin_example : (u : User) × (some root ≡ some u) × (u.role ≡ "admin")
logout_needs_admin_example = logout_needs_admin calm logout running refl logs_out

abbrev signed_out : Server calm
signed_out = record running { db = record running.db { sessions = [] } }

abbrev login : Request
login = request none (call_login (some creds))

abbrev is_set : {A : Type 0} → Option A → Bool
is_set none = false
is_set (some a) = true

is_set_lem : {A : Type 0} (o : Option A) → is_set o ≡ true → o ≢ none
is_set_lem none h e = false_is_not_true h
is_set_lem (some a) h e = cc

cookie_is_set : is_set (reply_of (auth_login calm login (some creds) signed_out)).set_cookie ≡ true
unfolding auth_login issue_session exit_if or_exit replying sql query clock now audit_as audit_row
    create_session insert_session user_by_id user_by_name find eq_nocase lower reap_sessions
    drop_stale remove_rows count_rows
cookie_is_set = refl

gets_cookie : (reply_of (auth_login calm login (some creds) signed_out)).set_cookie ≢ none
gets_cookie = is_set_lem _ cookie_is_set

login_verified_example : IsVerified calm signed_out.db creds
login_verified_example = login_verified calm login creds signed_out gets_cookie

setup_once_example :
    ((auth_setup calm login (some creds) running).1.db.users ≡ root ∷ [])
    × ((reply_of (auth_setup calm login (some creds) running)).set_cookie ≡ none)
setup_once_example = setup_once calm login (some creds) running (omega arith)
