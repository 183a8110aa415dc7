-- ===== src/Api/Governed.antt =====
-- The states of the daemon of openvtld/internal/api from its first start on, request after request.
use open_vtl.Prelude.Text.{starts_with}
use open_vtl.Prelude.{
  ℕ, ◌≡◌, refl, Bool, true, false, inl, inr, Bool-cases, Option, List, [], ◌∷◌, ◌++◌, arith, ltb,
  ◌+◌, ap, sym, ◌∙◌, false_is_not_true, true_is_not_false,
}
use open_vtl.Exec.{Result, ok, err}
use open_vtl.Exec.Triple.{Ends}
use open_vtl.Exec.{Exec}
use open_vtl.Exec.Triple.{
  Triple, triple_bind, triple_seq, triple_pure, triple_exit, triple_exit_if, triple_if,
  triple_weaken,
}
use open_vtl.Store.{Env, User, Server}
use open_vtl.Store.Users.{is_enabled_admin}
use open_vtl.Store.Users.Numbered.{Numbered-insert, one, count-append}
use open_vtl.Store.Users.Kept.{count_users_lem, create_user_row_lem}
use open_vtl.Store.View.{View, At, At-map, Keeps}
use open_vtl.Api.{
  Call, call_setup, call_login, call_logout, call_me, call_list_users, call_list_keys,
  call_create_user, call_update_user, call_set_password, call_delete_user, call_create_key,
  call_delete_key, Creds, Request, Response, path_of, server_error,
}
use open_vtl.Api.Access.{public_path}
use open_vtl.Api.Kept.{
  replying_lem, audit_as-Keeps, new_hash-Keeps, issue_session-Keeps, auth_login-Keeps,
  auth_logout-Keeps, list_users_handler-Keeps, list_keys-Keeps, body-Keeps, delete_key-Keeps,
  create_key-Keeps,
}
use open_vtl.Api.Login.{validate_creds, bad_json, auth_setup, report_setup, auth_me}
use open_vtl.Api.Users.Admins.{
  IsStaffed, reject_creds-Keeps, delete_user-Keeps, update_user-Keeps, set_user_password-Keeps,
  create_user-Keeps,
}
use open_vtl.Api.Serve.{dispatch, serve, serve_all}
use open_vtl.Api.Admission.{
  IsGoverned, IsGoverned-any_user, IsGoverned-weaken, done-lem, require_auth-IsStaffed,
  require_auth-Keeps,
}
use open_vtl.Exec.{modify}
use open_vtl.Prelude.{pos}

-- The first user, an enabled admin.
first_admin :
    (v : View) (u : User)
    → u.id ≡ pos v.next_user
    → is_enabled_admin u ≡ true
    → IsGoverned v
    → IsStaffed (record v { users = v.users ++ u ∷ []; next_user = v.next_user + 1 })
first_admin v u e a g = record {
  numbered = Numbered-insert v.users 1 v.next_user u g.numbered e;
  staffed = omega (arith, count-append is_enabled_admin v.users u, ap one a);
}

module _ (env : Env) where
  auth_setup-Keeps :
      (req : Request) (body : Option Creds) → Keeps env IsGoverned (auth_setup env req body)
  unfolding auth_setup is_enabled_admin
  auth_setup-Keeps req body = triple_bind (body-Keeps env bad_json body) (λ creds.
      triple_seq (reject_creds-Keeps env (validate_creds creds)) (
        triple_bind (replying_lem env server_error (count_users_lem env)) (λ n.
          triple_seq
            (triple_exit_if {Q = λ _. At env IsGoverned} (ltb 0 n) _
              (λ e s k. At-map env (λ v h. h.0) s k) (λ e s k. At-map env (λ v h. h.0) s k))
            (triple_bind (new_hash-Keeps env creds.password) (λ hash.
              triple_bind
                (replying_lem env server_error (
                  create_user_row_lem env IsStaffed creds.username hash "admin"
                    (λ v g ts. first_admin v _ refl refl g)))
                (λ id. IsGoverned-weaken env (
                  triple_seq set_done (
                    triple_seq
                      (audit_as-Keeps env creds.username req.remote_addr "auth.setup"
                        creds.username)
                      (issue_session-Keeps env req id)))))))))
    where
      set_done :
          Triple
            (At env IsStaffed)
            (modify {E = Response} (λ (s : Server env). record s { setup_done = true }))
            (λ _. At env IsStaffed)
            (λ _. At env IsStaffed)
      set_done = record {
        at = λ s k. record {
          held = record { numbered = k.held.numbered; staffed = k.held.staffed };
        };
      }

  report_setup-Keeps : (d : Bool) → Keeps env IsGoverned (report_setup env d)
  report_setup-Keeps true = triple_pure tt (λ s k. k)
  report_setup-Keeps false = triple_bind (replying_lem env _ (count_users_lem env)) (λ n.
      triple_if (ltb 0 n)
        (λ any. record {
          at = λ s k. record {
            held = set_done _ (IsGoverned-any_user _ k.held.0 (ap (ltb 0) (sym k.held.1) ∙ any));
          };
        })
        (λ e. triple_exit _ (λ s k. At-map env (λ v h. h.0) s k)))
    where
      set_done : (v : View) → IsStaffed v → IsGoverned (record v { setup_done = true })
      set_done v h = record { numbered = h.numbered; governed = inr h.staffed }

  auth_me-Keeps : (me : Option User) → Keeps env IsGoverned (auth_me env me)
  unfolding auth_me
  auth_me-Keeps me =
      triple_bind
        (triple_weaken (λ s k. k) (λ d s k. At-map env (λ v h. h.0) s k) (λ e s k. k)
          (done-lem env))
        (λ d. triple_seq (report_setup-Keeps d) (triple_pure _ (λ s k. k)))

  module _ (trim : List ℕ → List ℕ) where
    dispatch-public :
        (req : Request) (me : Option User) (c : Call)
        → public_path (path_of c) ≡ true
        → Keeps env IsGoverned (dispatch env trim req me c)
    unfolding dispatch public_path path_of starts_with
    dispatch-public req me (call_setup body) h = auth_setup-Keeps req body
    dispatch-public req me (call_login body) h = auth_login-Keeps env req body
    dispatch-public req me call_logout h = auth_logout-Keeps env req me
    dispatch-public req me call_me h = auth_me-Keeps me
    dispatch-public req me call_list_users h = list_users_handler-Keeps env
    dispatch-public req me call_list_keys h = list_keys-Keeps env
    dispatch-public req me (call_create_user body) h = false_is_not_true h
    dispatch-public req me (call_update_user id body) h = false_is_not_true h
    dispatch-public req me (call_set_password id body) h = false_is_not_true h
    dispatch-public req me (call_delete_user id) h = false_is_not_true h
    dispatch-public req me (call_create_key body) h = create_key-Keeps env trim req me body
    dispatch-public req me (call_delete_key id) h = delete_key-Keeps env req me id

    dispatch-private :
        (req : Request) (me : Option User) (c : Call)
        → public_path (path_of c) ≡ false
        → Keeps env IsStaffed (dispatch env trim req me c)
    unfolding dispatch public_path path_of starts_with
    dispatch-private req me (call_setup body) h = true_is_not_false h
    dispatch-private req me (call_login body) h = auth_login-Keeps env req body
    dispatch-private req me call_logout h = auth_logout-Keeps env req me
    dispatch-private req me call_me h = true_is_not_false h
    dispatch-private req me call_list_users h = list_users_handler-Keeps env
    dispatch-private req me call_list_keys h = list_keys-Keeps env
    dispatch-private req me (call_create_user body) h = create_user-Keeps env req me body
    dispatch-private req me (call_update_user id body) h = update_user-Keeps env req me id body
    dispatch-private req me (call_set_password id body) h =
        set_user_password-Keeps env req me id body
    dispatch-private req me (call_delete_user id) h = delete_user-Keeps env req me id
    dispatch-private req me (call_create_key body) h = create_key-Keeps env trim req me body
    dispatch-private req me (call_delete_key id) h = delete_key-Keeps env req me id

    serve-IsGoverned : (req : Request) → Keeps env IsGoverned (serve env trim req)
    unfolding serve
    serve-IsGoverned req = elim (Bool-cases (public_path (path_of req.call))) [
      | inl public ↦
          triple_bind (require_auth-Keeps env req public)
            (λ me. dispatch-public req me req.call public)
      | inr private ↦
          triple_bind (require_auth-IsStaffed env req private)
            (λ me. IsGoverned-weaken env (dispatch-private req me req.call private))
    ]

    after :
        {A : Type 0} {m : Exec (Server env) Response A}
        → Keeps env IsGoverned m
        → (s : Server env) → At env IsGoverned s
        → At env IsGoverned (m s).1
    after {A = A} {m = m} t s k = go (m s) (t.at s k)
      where
        go :
            (r : Result Response A × Server env)
            → Ends (λ _. At env IsGoverned) (λ _. At env IsGoverned) r
            → At env IsGoverned r.1
        go (ok a, s) h = h
        go (err e, s) h = h

    -- Whatever the clients request, and whatever statements and calls fail, the daemon stays governed.
    pub serve_all-IsGoverned :
        (reqs : List Request) (s : Server env)
        → At env IsGoverned s
        → At env IsGoverned (serve_all env trim reqs s)
    unfolding serve_all
    serve_all-IsGoverned [] s k = k
    serve_all-IsGoverned (req ∷ reqs) s k =
        serve_all-IsGoverned reqs (serve env trim req s).1 (after (serve-IsGoverned req) s k)
