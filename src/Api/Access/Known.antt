-- ===== src/Api/Access/Known.antt =====
-- Whose session or API key the middleware of openvtld/internal/api/auth.go finds.
use open_vtl.Prelude.{
  ℕ, ◌*◌, ◌≤◌, ◌≡◌, ◌≢◌, refl, ap, sym, ◌∙◌, String, str_eq, eq_iff, Bool, true, false, ◌||◌, ◌⊎◌,
  inl, inr, Option, none, some, List, [], ◌∷◌, arith, ltb, drop, find, true_is_not_false,
}
use open_vtl.Exec.{Result, ok, err, Exec}
use open_vtl.Exec.Triple.{
  Triple, triple_bind, triple_seq, triple_pure, triple_exit, triple_exit_if, triple_or_exit,
  triple_on_error, triple_if, triple_observe, triple_weaken, triple_frame, triple_const,
}
use open_vtl.Store.{Env, SqlError, not_found, User, Session, ApiKey, Tables, Server}
use open_vtl.Store.Sessions.{second, session_row, session_user}
use open_vtl.Store.ApiKeys.{key_has_hash, or_default, api_key_by_hash, api_keys_setting}
use open_vtl.Store.Snapshot.{Holds, query_finds, clock_reads}
use open_vtl.Api.{Request, Response}
use open_vtl.Api.Access.{
  key_user, is_bearer, with_session, by_session, with_key, by_key, or_key, authenticate,
}

module _ (env : Env) (t0 : ℕ) (clock_is : (w : env.World) → t0 ≤ (env.time_now w).0)
    (db : Tables) where
  -- The cookie's session, which is live at `t0`, and its user, who is enabled; or an API key, while
  -- keys are enabled.
  pub data IsAuthentic (req : Request) (u : User) : Type 0 where
    by_live_session :
        (c : ℕ) (cs : List ℕ) (s : Session)
        → req.cookie ≡ some (c ∷ cs)
        → session_row (env.hash_token (c ∷ cs)) db ≡ some (u, s)
        → u.disabled ≡ false
        → t0 ≤ s.expires_at * second
        → IsAuthentic req u
    by_enabled_key :
        (k : ApiKey)
        → db.api_keys_enabled ≡ some "1"
        → find (key_has_hash (env.hash_token (drop 7 req.authorization))) db.api_keys ≡ some k
        → u ≡ key_user k
        → IsAuthentic req u

  abbrev IsLive : String → User × ℕ → Type 0
  IsLive hash (u, exp) =
      (s : Session) × (session_row hash db ≡ some (u, s))
      × (u.disabled ≡ false)
      × (exp ≡ s.expires_at * second)
      × (t0 ≤ exp)

  not_either : (a b : Bool) → (a || b) ≡ false → (a ≡ false) × (b ≡ false)
  not_either false false h = (refl, refl)
  not_either false true h = true_is_not_false h
  not_either true b h = true_is_not_false h

  not_after : (a b : ℕ) → ltb a b ≡ false → b ≤ a
  not_after a b h = ground arith

  session_user_lem :
      (hash : String)
      → Triple (Holds env db) (session_user env hash) (λ r s. IsLive hash r) (λ e. Holds env db)
  unfolding session_user
  session_user_lem hash = triple_bind (query_finds env db (session_row hash)) (λ row.
      triple_bind
        (triple_or_exit {Q = λ r s. Holds env db s × (session_row hash db ≡ some r)} not_found row
          (λ e s k. k.0) (λ r e s k. (k.0, sym k.1 ∙ e)))
        (λ (u, x).
          triple_bind
            (triple_frame (session_row hash db ≡ some (u, x)) (clock_reads env db t0 clock_is))
            (λ t.
              triple_seq
                (triple_exit_if {Q = λ _ s. IsLive hash (u, x.expires_at * second)}
                  (u.disabled || ltb (x.expires_at * second) t) not_found (λ e s k. k.0.0)
                  (λ e s k. live u x t k.0.1 k.1 (not_either u.disabled _ e)))
                (triple_pure _ (λ s k. k)))))
    where
      live :
          (u : User) (x : Session) (t : ℕ)
          → t0 ≤ t
          → session_row hash db ≡ some (u, x)
          → (u.disabled ≡ false) × (ltb (x.expires_at * second) t ≡ false)
          → IsLive hash (u, x.expires_at * second)
      live u x t l row e =
          (x, row, e.0, refl, omega (arith, not_after (x.expires_at * second) t e.1))

  -- What is known of the identity that was found; without one the database is as it was.
  unfoldable pub IsKnown : Request → Option User → Server env → Type 0
  IsKnown req none s = Holds env db s
  IsKnown req (some u) s = IsAuthentic req u

  IsFound : String → Result SqlError (User × ℕ) → Server env → Type 0
  IsFound hash (ok r) s = IsLive hash r
  IsFound hash (err e) s = Holds env db s

  with_session_lem :
      (req : Request) (c : ℕ) (cs : List ℕ)
      → req.cookie ≡ some (c ∷ cs)
      → (found : Result SqlError (User × ℕ))
      → Triple
          (IsFound (env.hash_token (c ∷ cs)) found)
          (with_session env (env.hash_token (c ∷ cs)) found)
          (IsKnown req)
          (λ _ _. Unit {0})
  unfolding with_session IsFound IsKnown
  with_session_lem req c cs has (err e) = triple_pure none (λ s k. k)
  with_session_lem req c cs has (ok (u, exp)) =
      triple_seq (triple_const (IsLive (env.hash_token (c ∷ cs)) (u, exp))) (
        triple_pure (some u)
          (λ s k. by_live_session c cs k.0 has k.1 k.2 (omega (arith, k.3, k.4))))

  by_session_lem :
      (req : Request) (cookie : Option (List ℕ))
      → req.cookie ≡ cookie
      → Triple (Holds env db) (by_session env cookie) (IsKnown req) (λ _ _. Unit {0})
  unfolding by_session IsFound IsKnown
  by_session_lem req none has = triple_pure none (λ s k. k)
  by_session_lem req (some []) has = triple_pure none (λ s k. k)
  by_session_lem req (some (c ∷ cs)) has =
      triple_bind
        (triple_observe {Q' = IsFound (env.hash_token (c ∷ cs))}
          (session_user_lem (env.hash_token (c ∷ cs))) (λ r s k. k) (λ e s k. k))
        (λ found. with_session_lem req c cs has found)

  setting_lem :
      {E : Type 0}
      → Triple
          (Holds env db)
          (api_keys_setting env {E = E})
          (λ v s. Holds env db s × ((v ≡ "") ⊎ (v ≡ or_default "" db.api_keys_enabled)))
          (λ _. Holds env db)
  unfolding api_keys_setting
  setting_lem =
      triple_on_error
        (triple_weaken (λ s k. k) (λ v s k. (k.0, inr k.1)) (λ e s k. k)
          (query_finds env db (λ db. or_default "" db.api_keys_enabled)))
        (λ e. triple_pure "" (λ s k. (k, inl refl)))

  empty_is_not_one : (v : String) → v ≡ "" → v ≢ "1"
  empty_is_not_one v e h = cc

  enabled_by :
      (v : String) (o : Option String) → (v ≡ "") ⊎ (v ≡ or_default "" o) → v ≡ "1" → o ≡ some "1"
  enabled_by v o (inl e) one = absurd (empty_is_not_one v e one)
  enabled_by v none (inr e) one = absurd (empty_is_not_one v e one)
  enabled_by v (some w) (inr e) one = ap some (sym e ∙ one)

  key_lem :
      (hash : String)
      → Triple
          (Holds env db)
          (api_key_by_hash env hash)
          (λ k s. find (key_has_hash hash) db.api_keys ≡ some k)
          (λ _. Holds env db)
  unfolding api_key_by_hash
  key_lem hash =
      triple_on_error
        (triple_bind (query_finds env db (λ db. find (key_has_hash hash) db.api_keys))
          (λ row. triple_or_exit not_found row (λ e s k. k.0) (λ r e s k. sym k.1 ∙ e)))
        (λ e. triple_exit not_found (λ s k. k))

  IsFoundKey : String → Result SqlError ApiKey → Server env → Type 0
  IsFoundKey hash (ok k) s = find (key_has_hash hash) db.api_keys ≡ some k
  IsFoundKey hash (err e) s = Holds env db s

  with_key_lem :
      (req : Request)
      → db.api_keys_enabled ≡ some "1"
      → (found : Result SqlError ApiKey)
      → Triple
          (IsFoundKey (env.hash_token (drop 7 req.authorization)) found)
          (with_key env found)
          (IsKnown req)
          (λ _ _. Unit {0})
  unfolding with_key IsFoundKey IsKnown
  with_key_lem req on (err e) = triple_pure none (λ s k. k)
  with_key_lem req on (ok k) =
      triple_seq
        (triple_const
          (find (key_has_hash (env.hash_token (drop 7 req.authorization))) db.api_keys ≡ some k))
        (triple_pure (some (key_user k)) (λ s f. by_enabled_key k on f refl))

  by_key_lem :
      (req : Request)
      → Triple (Holds env db) (by_key env req.authorization) (IsKnown req) (λ _ _. Unit {0})
  unfolding by_key IsKnown IsFoundKey
  by_key_lem req =
      triple_if (is_bearer req.authorization)
        (λ e. triple_bind (triple_weaken (λ s k. k) (λ v s k. k) (λ e s k. tt) setting_lem) (λ v.
          triple_if (str_eq v "1")
            (λ one. fact (λ how.
              triple_bind
                (triple_observe {Q' = IsFoundKey (env.hash_token (drop 7 req.authorization))}
                  (key_lem (env.hash_token (drop 7 req.authorization))) (λ k s f. f) (λ e s k. k))
                (λ found.
                  with_key_lem req (enabled_by v db.api_keys_enabled how ((eq_iff v "1").0 one))
                    found)))
            (λ other. triple_pure none (λ s k. k.0))))
        (λ e. triple_pure none (λ s k. k))
    where
      fact :
          {A F : Type 0} {m : Exec (Server env) Response A} {Q : A → Server env → Type 0}
          {R : Response → Server env → Type 0}
          → (F → Triple (Holds env db) m Q R)
          → Triple (λ s. Holds env db s × F) m Q R
      fact t = record { at = λ s k. (t k.1).at s k.0 }

  or_key_lem :
      (req : Request) (u : Option User)
      → Triple (IsKnown req u) (or_key env req.authorization u) (IsKnown req) (λ _ _. Unit {0})
  unfolding or_key IsKnown
  or_key_lem req none = by_key_lem req
  or_key_lem req (some u) = triple_pure (some u) (λ s k. k)

  pub authenticate_lem :
      (req : Request) → Triple (Holds env db) (authenticate env req) (IsKnown req) (λ _ _. Unit {0})
  unfolding authenticate
  authenticate_lem req = triple_bind (by_session_lem req req.cookie refl) (λ u. or_key_lem req u)
