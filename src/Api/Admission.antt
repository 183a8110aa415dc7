-- ===== src/Api/Admission.antt =====
-- The first-run gate of openvtld/internal/api/auth.go, and the states before and behind it.
use open_vtl.Prelude.{
  ◌≤◌, ◌≡◌, refl, Bool, true, false, ◌⊎◌, inl, inr, Option, none, some, [], ltb, length, ap, sym,
  ◌∙◌, not,
}
use open_vtl.Exec.{Exec, gets}
use open_vtl.Exec.Triple.{
  Triple, triple_bind, triple_seq, triple_pure, triple_exit, triple_if, triple_weaken,
}
use open_vtl.Store.{Env, User, Server}
use open_vtl.Store.Users.Numbered.{Numbered}
use open_vtl.Store.Users.Kept.{count_users_lem}
use open_vtl.Store.View.{View, At, At-map, Keeps}
use open_vtl.Api.{Request, Response, path_of}
use open_vtl.Api.Access.{public_path, setup_reply, require_setup, admit, may_enter, require_auth}
use open_vtl.Api.Kept.{replying_lem, guard-Keeps}
use open_vtl.Api.Users.Admins.{admins, IsStaffed}
use open_vtl.Api.Access.Kept.{authenticate-Keeps}

pub record IsGoverned (v : View) : Type 0 where
  pub numbered : Numbered 1 v.users v.next_user
  pub governed : ((v.users ≡ []) × (v.setup_done ≡ false)) ⊎ (1 ≤ admins v)

pub IsStaffed-IsGoverned : (v : View) → IsStaffed v → IsGoverned v
IsStaffed-IsGoverned v s = record { numbered = s.numbered; governed = inr s.staffed }

IsGoverned-done : (v : View) → IsGoverned v → v.setup_done ≡ true → IsStaffed v
IsGoverned-done v g done = elim g.governed [
  | inl fresh ↦ cc (fresh.1, done)
  | inr staffed ↦ record { numbered = g.numbered; staffed = staffed }
]

pub IsGoverned-any_user : (v : View) → IsGoverned v → ltb 0 (length v.users) ≡ true → IsStaffed v
IsGoverned-any_user v g any = elim g.governed [
  | inl fresh ↦ cc (ap (λ us. ltb 0 (length us)) fresh.0, any)
  | inr staffed ↦ record { numbered = g.numbered; staffed = staffed }
]

module _ (env : Env) where
  pub IsGoverned-weaken :
      {A : Type 0} {P : Server env → Type 0} {m : Exec (Server env) Response A}
      → Triple P m (λ _. At env IsStaffed) (λ _. At env IsStaffed)
      → Triple P m (λ _. At env IsGoverned) (λ _. At env IsGoverned)
  IsGoverned-weaken t =
      triple_weaken (λ s k. k) (λ a s k. At-map env IsStaffed-IsGoverned s k)
        (λ e s k. At-map env IsStaffed-IsGoverned s k) t

  pub done-lem :
      Triple
        (At env IsGoverned)
        (gets {E = Response} (λ (s : Server env). s.setup_done))
        (λ d. At env (λ v. IsGoverned v × (d ≡ v.setup_done)))
        (λ _. At env IsGoverned)
  done-lem = record { at = λ s k. record { held = (k.held, refl) } }

  require_setup_lem :
      (d : Bool)
      → Triple
          (At env (λ v. IsGoverned v × (d ≡ v.setup_done)))
          (require_setup env d)
          (λ _. At env IsStaffed)
          (λ _. At env IsGoverned)
  unfolding require_setup
  require_setup_lem true =
      triple_pure tt (λ s k. At-map env (λ v h. IsGoverned-done v h.0 (sym h.1)) s k)
  require_setup_lem false =
      triple_bind
        (triple_weaken (λ s k. At-map env (λ v h. h.0) s k) (λ n s k. k) (λ e s k. k)
          (replying_lem env (λ e. setup_reply) (count_users_lem env {K = IsGoverned})))
        (λ n.
          triple_if (ltb 0 n)
            (λ any. record {
              at = λ s k. record {
                held =
                    set_done _ (IsGoverned-any_user _ k.held.0 (ap (ltb 0) (sym k.held.1) ∙ any));
              };
            })
            (λ e. triple_exit setup_reply (λ s k. At-map env (λ v h. h.0) s k)))
    where
      set_done : (v : View) → IsStaffed v → IsStaffed (record v { setup_done = true })
      set_done v h = record { numbered = h.numbered; staffed = h.staffed }

  admit-Keeps : (req : Request) (me : Option User) → Keeps env IsStaffed (admit env req me)
  unfolding admit
  admit-Keeps req none = triple_exit _ (λ s k. k)
  admit-Keeps req (some u) =
      triple_seq (guard-Keeps env (not (may_enter req u)) _) (triple_pure (some u) (λ s k. k))

  -- Past the middleware on a path that is not public there is an enabled admin.
  pub require_auth-IsStaffed :
      (req : Request)
      → public_path (path_of req.call) ≡ false
      → Triple
          (At env IsGoverned)
          (require_auth env req)
          (λ _. At env IsStaffed)
          (λ _. At env IsGoverned)
  unfolding require_auth
  require_auth-IsStaffed req private = triple_bind (authenticate-Keeps env req) (λ u.
      triple_if (public_path (path_of req.call)) (λ public. cc (public, private))
        (λ e. triple_bind done-lem (λ d. triple_seq (require_setup_lem d) (
          triple_weaken (λ s k. k) (λ a s k. k) (λ e s k. At-map env IsStaffed-IsGoverned s k)
            (admit-Keeps req u)))))

  pub require_auth-Keeps :
      (req : Request)
      → public_path (path_of req.call) ≡ true
      → Keeps env IsGoverned (require_auth env req)
  unfolding require_auth
  require_auth-Keeps req public = triple_bind (authenticate-Keeps env req) (λ u.
      triple_if (public_path (path_of req.call)) (λ e. triple_pure u (λ s k. k))
        (λ private. cc (public, private)))
