-- ===== src/Api/Access/Identity.antt =====
-- Whose request the middleware of openvtld/internal/api/auth.go lets pass.
use open_vtl.Prelude.Text.{ascii, starts_with, bytes_eq, format_int}
use open_vtl.Prelude.{
  ◌++◌, ℕ, ◌≤◌, ◌≡◌, refl, ap, sym, ◌∙◌, subst, str_eq, eq_iff, Bool, true, false, not, ◌&&◌, inl,
  inr, Bool-cases, Option, none, some, arith, true_is_not_false, false_is_not_true,
}
use open_vtl.Exec.{Result, ok, err, gets}
use open_vtl.Exec.Triple.{
  Triple, Ends, triple_bind, triple_seq, triple_pure, triple_exit, triple_exit_if, triple_if,
  triple_weaken, triple_const,
}
use open_vtl.Store.{Env, User, Tables, Server}
use open_vtl.Store.Snapshot.{Holds}
use open_vtl.Api.{Request, Response, call_logout, method_of, path_of}
use open_vtl.Api.Access.{
  public_path, reads, is_put, is_own_password, may_enter, require_setup, admit, require_auth,
}
use open_vtl.Api.Access.Known.{IsAuthentic, IsKnown, authenticate_lem}

module _ (env : Env) (t0 : ℕ) (clock_is : (w : env.World) → t0 ≤ (env.time_now w).0)
    (db : Tables) where
  -- Why a user may make the request.
  pub data IsAllowed (req : Request) (u : User) : Type 0 where
    by_reading : reads (method_of req.call) ≡ true → IsAllowed req u
    by_admin_role : u.role ≡ "admin" → IsAllowed req u
    by_own_password : is_own_password req u ≡ true → IsAllowed req u

  allowed : (req : Request) (u : User) → may_enter req u ≡ true → IsAllowed req u
  unfolding may_enter
  allowed req u h = elim (Bool-cases (reads (method_of req.call))) [
    | inl reading ↦ by_reading reading
    | inr other ↦ elim (Bool-cases (str_eq u.role "admin")) [
      | inl admin ↦ by_admin_role ((eq_iff u.role "admin").0 admin)
      | inr plain ↦ by_own_password (sym (rw (other, plain)) ∙ h)
    ]
  ]

  -- The identity that passes.
  IsPassed : Request → Option User → Server env → Type 0
  IsPassed req me s =
      (u : User) × (me ≡ some u) × IsAuthentic env t0 clock_is db req u × IsAllowed req u

  IsSure : Request → Option User → Type 0
  IsSure req none = Unit {0}
  IsSure req (some u) = IsAuthentic env t0 clock_is db req u

  sure :
      (req : Request) (me : Option User) (s : Server env)
      → IsKnown env t0 clock_is db req me s
      → IsSure req me
  unfolding IsKnown IsSure
  sure req none s k = tt
  sure req (some u) s k = k

  admit_lem :
      (req : Request) (me : Option User)
      → Triple (λ s. IsSure req me) (admit env req me) (IsPassed req) (λ _ _. Unit {0})
  unfolding admit IsSure IsPassed
  admit_lem req none = triple_exit _ (λ s k. tt)
  admit_lem req (some u) =
      triple_seq
        (triple_exit_if {Q = λ _ s. IsAuthentic env t0 clock_is db req u × IsAllowed req u}
          (not (may_enter req u)) _ (λ e s k. tt)
          (λ e s k. (k, allowed req u (not_false (may_enter req u) e))))
        (triple_pure (some u) (λ s k. (u, refl, k.0, k.1)))
    where
      not_false : (b : Bool) → not b ≡ false → b ≡ true
      not_false true h = refl
      not_false false h = true_is_not_false h

  private_lem :
      (req : Request)
      → public_path (path_of req.call) ≡ false
      → Triple (Holds env db) (require_auth env req) (IsPassed req) (λ _ _. Unit {0})
  unfolding require_auth IsKnown
  private_lem req private = triple_bind (authenticate_lem env t0 clock_is db req) (λ u.
      triple_if (public_path (path_of req.call))
        (λ public. true_is_not_false (sym public ∙ private))
        (λ e.
          triple_bind
            (triple_weaken (sure req u) (λ a s k. k) (λ e s k. k)
              (triple_const (IsSure req u) {m = gets (λ (s : Server env). s.setup_done)}))
            (λ d.
              triple_seq (triple_const (IsSure req u) {m = require_setup env d})
                (admit_lem req u))))

ok_inj : {E A : Type 0} (r : Result E A) {a b : A} → r ≡ ok a → r ≡ ok b → a ≡ b
ok_inj r p q = cc

-- A request on a path that is not public gets past the middleware, on a clock that never reads below
-- `t0`, only with an identity: the enabled user of a session that is not expired at `t0`, or an API key
-- while keys are enabled; and it only reads, or the identity is an admin, or it sets its own password.
pub require_auth_lem :
    (env : Env) (t0 : ℕ) (clock_is : (w : env.World) → t0 ≤ (env.time_now w).0) (req : Request)
    (s : Server env) {me : Option User}
    → public_path (path_of req.call) ≡ false
    → (require_auth env req s).0 ≡ ok me
    → (u : User) × (me ≡ some u)
      × IsAuthentic env t0 clock_is s.db req u
      × IsAllowed env t0 clock_is s.db req u
unfolding IsPassed
require_auth_lem env t0 clock_is req s {me = me} private passed =
    go (require_auth env req s)
      ((private_lem env t0 clock_is s.db req private).at s (record { same = refl })) passed
  where
    go :
        (r : Result Response (Option User) × Server env)
        → Ends (IsPassed env t0 clock_is s.db req) (λ _ _. Unit {0}) r
        → r.0 ≡ ok me
        → IsPassed env t0 clock_is s.db req me s
    go (ok a, s') h e = subst (λ m. IsPassed env t0 clock_is s.db req m s) (ok_inj (ok a) refl e) h
    go (err x, s') h e = absurd cc

-- A logout request gets past the middleware only from an admin.
pub logout_needs_admin :
    (env : Env) (req : Request) (s : Server env) {me : Option User}
    → req.call ≡ call_logout
    → (require_auth env req s).0 ≡ ok me
    → (u : User) × (me ≡ some u) × (u.role ≡ "admin")
unfolding public_path path_of starts_with reads method_of is_own_password
logout_needs_admin env req s is_logout passed =
    let always : (w : env.World) → 0 ≤ (env.time_now w).0 = λ w. omega arith in
    let found =
      require_auth_lem env 0 always req s (ap (λ c. public_path (path_of c)) is_logout) passed in
    (found.0, found.1, role_of found.0 found.3)
  where
    role_of : (u : User) → IsAllowed env 0 (λ w. omega arith) s.db req u → u.role ≡ "admin"
    role_of u (by_reading h) = false_is_not_true (sym (ap (λ c. reads (method_of c)) is_logout) ∙ h)
    role_of u (by_admin_role h) = h
    role_of u (by_own_password h) = false_is_not_true (
        sym (
          ap
            (λ c.
              is_put (method_of c)
              && bytes_eq (path_of c)
                  (ascii "/api/users/" ++ (format_int u.id ++ ascii "/password")))
            is_logout)
        ∙ h)
