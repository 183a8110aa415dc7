-- ===== src/Api/Access/Kept.antt =====
-- The look-up of the identity in openvtld/internal/api/auth.go, on any property of the user table.
use open_vtl.Prelude.{ℕ, ◌+◌, ◌*◌, String, str_eq, Option, none, some, List, [], ◌∷◌, ltb, drop}
use open_vtl.Exec.{Result, ok, err}
use open_vtl.Exec.Triple.{triple_bind, triple_seq, triple_pure, triple_if}
use open_vtl.Store.{Env, SqlError, User, ApiKey}
use open_vtl.Store.View.{View, Keeps, clock-Keeps, observe-Keeps}
use open_vtl.Store.Kept.{
  session_user-Keeps, slide_session-Keeps, api_key_by_hash-Keeps, touch_api_key_row-Keeps,
  api_keys_setting-Keeps,
}
use open_vtl.Store.Sessions.{second}
use open_vtl.Api.{Request}
use open_vtl.Api.Access.{
  session_window, slide_every, minute, is_bearer, slide_if_due, with_session, by_session,
  touch_after, with_key, by_key, or_key, authenticate,
}

module _ (env : Env) {K : View → Type 0} where
  slide_if_due-Keeps : (hash : String) (exp : ℕ) → Keeps env K (slide_if_due env hash exp)
  unfolding slide_if_due
  slide_if_due-Keeps hash exp = triple_bind (clock-Keeps env) (λ t.
      triple_if (ltb (exp + slide_every) (t + session_window))
        (λ e. triple_bind (clock-Keeps env) (λ t'.
          triple_bind (observe-Keeps env (slide_session-Keeps env hash (t' + session_window)))
            (λ r. triple_pure tt (λ s k. k))))
        (λ e. triple_pure tt (λ s k. k)))

  with_session-Keeps :
      (hash : String) (found : Result SqlError (User × ℕ))
      → Keeps env K (with_session env hash found)
  unfolding with_session
  with_session-Keeps hash (err e) = triple_pure none (λ s k. k)
  with_session-Keeps hash (ok (u, exp)) =
      triple_seq (slide_if_due-Keeps hash exp) (triple_pure (some u) (λ s k. k))

  by_session-Keeps : (cookie : Option (List ℕ)) → Keeps env K (by_session env cookie)
  unfolding by_session
  by_session-Keeps none = triple_pure none (λ s k. k)
  by_session-Keeps (some []) = triple_pure none (λ s k. k)
  by_session-Keeps (some (c ∷ cs)) =
      triple_bind (observe-Keeps env (session_user-Keeps env (env.hash_token (c ∷ cs))))
        (λ found. with_session-Keeps (env.hash_token (c ∷ cs)) found)

  touch_after-Keeps : (id : ℕ) (last : Option ℕ) → Keeps env K (touch_after env id last)
  unfolding touch_after
  touch_after-Keeps id none =
      triple_bind (observe-Keeps env (touch_api_key_row-Keeps env id))
        (λ r. triple_pure tt (λ s k. k))
  touch_after-Keeps id (some last) = triple_bind (clock-Keeps env) (λ t.
      triple_if (ltb t (last * second + minute)) (λ e. triple_pure tt (λ s k. k))
        (λ e.
          triple_bind (observe-Keeps env (touch_api_key_row-Keeps env id))
            (λ r. triple_pure tt (λ s k. k))))

  with_key-Keeps : (found : Result SqlError ApiKey) → Keeps env K (with_key env found)
  unfolding with_key
  with_key-Keeps (err e) = triple_pure none (λ s k. k)
  with_key-Keeps (ok k) =
      triple_seq (touch_after-Keeps k.id k.last_used_at) (triple_pure _ (λ s h. h))

  by_key-Keeps : (authorization : List ℕ) → Keeps env K (by_key env authorization)
  unfolding by_key
  by_key-Keeps authorization =
      triple_if (is_bearer authorization)
        (λ e. triple_bind (api_keys_setting-Keeps env) (λ setting.
          triple_if (str_eq setting "1")
            (λ e.
              triple_bind
                (observe-Keeps env
                  (api_key_by_hash-Keeps env (env.hash_token (drop 7 authorization))))
                (λ found. with_key-Keeps found))
            (λ e. triple_pure none (λ s k. k))))
        (λ e. triple_pure none (λ s k. k))

  or_key-Keeps :
      (authorization : List ℕ) (u : Option User) → Keeps env K (or_key env authorization u)
  unfolding or_key
  or_key-Keeps authorization (some u) = triple_pure (some u) (λ s k. k)
  or_key-Keeps authorization none = by_key-Keeps authorization

  pub authenticate-Keeps : (req : Request) → Keeps env K (authenticate env req)
  unfolding authenticate
  authenticate-Keeps req =
      triple_bind (by_session-Keeps req.cookie) (λ u. or_key-Keeps req.authorization u)
