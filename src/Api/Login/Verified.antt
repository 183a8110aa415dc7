-- ===== src/Api/Login/Verified.antt =====
-- Who gets a session in openvtld/internal/api/auth.go, and setup after the first user.
use open_vtl.Prelude.{
  false_is_not_true, lt→ltb, ℕ, ◌<◌, ◌≡◌, ◌≢◌, refl, sym, ap, ◌∙◌, subst, String, Bool, true, false,
  not, ◌||◌, ◌⊎◌, inl, inr, Option, none, some, List, ltb, length, find, true_is_not_false,
}
use open_vtl.Exec.{Result, ok, err, Exec, or_exit}
use open_vtl.Exec.Triple.{
  Triple, Ends, triple_bind, triple_seq, triple_pure, triple_exit, triple_exit_if, triple_or_exit,
  triple_dropped, triple_on_error, triple_if, triple_weaken,
}
use open_vtl.Store.{audit_row, Env, SqlError, engine, not_found, constraint, User, Tables, Server}
use open_vtl.Store.Users.{has_name, user_by_name}
use open_vtl.Store.Users.Kept.{count_users_lem}
use open_vtl.Store.View.{View, view, At, At-map}
use open_vtl.Store.Snapshot.{Holds, query_finds}
use open_vtl.Api.{replying, audit_as, Creds, Request, Response, server_error}
use open_vtl.Api.Login.{
  validate_creds, bad_json, auth_setup, auth_login, auth_fail, refuse_login, reject_creds,
}

abbrev pub reply_of : {S : Type 0} → Result Response Response × S → Response
reply_of (ok r, s) = r
reply_of (err r, s) = r

module _ (env : Env) (db : Tables) (creds : Creds) where
  -- The credentials are an enabled user's.
  pub record IsVerified : Type 0 where
    pub user : User
    pub is_named : find (has_name creds.username) db.users ≡ some user
    pub is_enabled : user.disabled ≡ false
    pub is_right : env.verify_password creds.password user.password_hash ≡ true

  -- Without that there is no cookie.
  abbrev Guarded : Response → Server env → Type 0
  Guarded r s = (r.set_cookie ≡ none) ⊎ IsVerified

  -- Credentials that are verified, whatever follows.
  verified_lem :
      {m : Exec (Server env) Response Response} → Triple (λ s. IsVerified) m Guarded Guarded
  verified_lem {m = m} = record { at = λ s v. go (m s) v }
    where
      go : (r : Result Response Response × Server env) → IsVerified → Ends Guarded Guarded r
      go (ok a, s) v = inr v
      go (err e, s) v = inr v

  audited :
      {P : Server env → Type 0} {R : Response → Server env → Type 0} (actor addr : List ℕ)
      (action : String) (subject : List ℕ)
      → Triple P (audit_as env actor addr action subject) (λ _ _. Unit {0}) R
  unfolding audit_as
  audited actor addr action subject =
      triple_bind (triple_dropped (audit_row env actor addr action subject))
        (λ r. triple_pure tt (λ s k. k))

  auth_fail_lem :
      {A : Type 0} {P : Server env → Type 0} {Q : A → Server env → Type 0} (req : Request)
      (name : List ℕ)
      → Triple P (auth_fail env req name) Q Guarded
  auth_fail_lem req name =
      triple_seq (audited name req.remote_addr "auth.login_failed" name)
        (triple_exit _ (λ s k. inl refl))

  refuse_login_lem :
      {A : Type 0} {P : Server env → Type 0} {Q : A → Server env → Type 0} (req : Request)
      (name : List ℕ) (e : SqlError)
      → Triple P (refuse_login env req name e) Q Guarded
  refuse_login_lem req name not_found = auth_fail_lem req name
  refuse_login_lem req name engine = triple_exit _ (λ s k. inl refl)
  refuse_login_lem req name constraint = triple_exit _ (λ s k. inl refl)

  user_by_name_lem :
      Triple
        (Holds env db)
        (user_by_name env creds.username)
        (λ u s. find (has_name creds.username) db.users ≡ some u)
        (λ _ _. Unit {0})
  unfolding user_by_name
  user_by_name_lem =
      triple_bind
        (triple_weaken (λ s k. k) (λ row s k. k.1) (λ e s k. tt)
          (query_finds env db (λ db. find (has_name creds.username) db.users)))
        (λ row. triple_or_exit not_found row (λ e s k. tt) (λ u e s k. sym k ∙ e))

  not_refused : (a b : Bool) → (a || not b) ≡ false → (a ≡ false) × (b ≡ true)
  not_refused false true h = (refl, refl)
  not_refused false false h = true_is_not_false h
  not_refused true b h = true_is_not_false h

  login_lem :
      (req : Request) → Triple (Holds env db) (auth_login env req (some creds)) Guarded Guarded
  unfolding auth_login or_exit
  login_lem req =
      triple_bind (triple_on_error user_by_name_lem (λ e. refuse_login_lem req creds.username e))
        (λ u.
          triple_if (u.disabled || not (env.verify_password creds.password u.password_hash))
            (λ e. auth_fail_lem req creds.username)
            (λ e.
              triple_weaken
                (λ s found.
                  let h =
                    not_refused u.disabled (env.verify_password creds.password u.password_hash) e in
                  record { user = u; is_named = found; is_enabled = h.0; is_right = h.1 })
                (λ r s k. k) (λ r s k. k) verified_lem))

-- Whatever fails, a login that sets a cookie found an enabled user under the name, whose password
-- verifies.
pub login_verified :
    (env : Env) (req : Request) (creds : Creds) (s : Server env)
    → (reply_of (auth_login env req (some creds) s)).set_cookie ≢ none
    → IsVerified env s.db creds
login_verified env req creds s sets =
    go (auth_login env req (some creds) s)
      ((login_lem env s.db creds req).at s (record { same = refl })) sets
  where
    pick :
        (r : Response)
        → Guarded env s.db creds r s
        → r.set_cookie ≢ none
        → IsVerified env s.db creds
    pick r (inl no_cookie) sets = absurd (sets no_cookie)
    pick r (inr v) sets = v

    go :
        (r : Result Response Response × Server env)
        → Ends (Guarded env s.db creds) (Guarded env s.db creds) r
        → (reply_of r).set_cookie ≢ none
        → IsVerified env s.db creds
    go (ok a, s') h sets = pick a h sets
    go (err e, s') h sets = pick e h sets

module _ (env : Env) where
  replying_ends :
      {A : Type 0} {P : Server env → Type 0} {Q : A → Server env → Type 0}
      {R : SqlError → Server env → Type 0} {R' : Response → Server env → Type 0}
      {m : Exec (Server env) SqlError A} (reply : SqlError → Response)
      → Triple P m Q R
      → ((e : SqlError) (s : Server env) → R e s → R' (reply e) s)
      → Triple P (replying env reply m) Q R'
  unfolding replying
  replying_ends reply t h = triple_on_error t (λ e. triple_exit (reply e) (h e))

module _ (env : Env) (users : List User) (any : 0 < length users) where
  HasUsers : View → Type 0
  HasUsers v = v.users ≡ users

  -- The users are as they were, and no cookie is set.
  abbrev Unchanged : Response → Server env → Type 0
  Unchanged r s = At env HasUsers s × (r.set_cookie ≡ none)

  reject_lem :
      (complaint : Option String)
      → Triple (At env HasUsers) (reject_creds complaint) (λ _. At env HasUsers) Unchanged
  reject_lem none = triple_pure tt (λ s k. k)
  reject_lem (some text) = triple_exit _ (λ s k. (k, refl))

  impossible :
      {m : Exec (Server env) Response Response} → Triple (λ s. false ≡ true) m Unchanged Unchanged
  impossible = record { at = λ s h. false_is_not_true h }

  some_user : (v : View) (n : ℕ) → HasUsers v × (n ≡ length v.users) → ltb 0 n ≡ true
  unfolding HasUsers
  some_user v n h = lt→ltb 0 n (subst (λ m. 0 < m) (sym (h.1 ∙ ap length h.0)) any)

  setup_lem :
      (req : Request) (body : Option Creds)
      → Triple (At env HasUsers) (auth_setup env req body) Unchanged Unchanged
  unfolding auth_setup
  setup_lem req body =
      triple_bind
        (triple_or_exit {Q = λ _. At env HasUsers} bad_json body (λ e s k. (k, refl))
          (λ c e s k. k))
        (λ creds. triple_seq (reject_lem (validate_creds creds)) (
          triple_bind
            (replying_ends env server_error (count_users_lem env {K = HasUsers})
              (λ e s k. (k, refl)))
            (λ n.
              triple_seq
                (triple_exit_if {Q = λ _ s. false ≡ true} (ltb 0 n) _
                  (λ e s k. (At-map env (λ v h. h.0) s k, refl))
                  (λ e s k. sym e ∙ some_user (view s.db s.setup_done) n k.held))
                impossible)))

-- Once there is a user, whatever is asked and whatever fails, setup leaves the users as they are and
-- sets no cookie.
pub setup_once :
    (env : Env) (req : Request) (body : Option Creds) (s : Server env)
    → 0 < length s.db.users
    → ((auth_setup env req body s).1.db.users ≡ s.db.users)
      × ((reply_of (auth_setup env req body s)).set_cookie ≡ none)
unfolding HasUsers
setup_once env req body s any =
    go (auth_setup env req body s)
      ((setup_lem env s.db.users any req body).at s (record { held = refl }))
  where
    go :
        (r : Result Response Response × Server env)
        → Ends (Unchanged env s.db.users any) (Unchanged env s.db.users any) r
        → (r.1.db.users ≡ s.db.users) × ((reply_of r).set_cookie ≡ none)
    go (ok a, s') h = (h.0.held, h.1)
    go (err e, s') h = (h.0.held, h.1)
