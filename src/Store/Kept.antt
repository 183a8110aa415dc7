-- ===== src/Store/Kept.antt =====
-- The operations on sessions and API keys of openvtld/internal/store, on any property of the user
-- table.
use open_vtl.Prelude.{
  ℕ, ◌*◌, ◌≡◌, refl, String, Bool, true, false, ◌||◌, List, ltb, ℤ, find, count_rows, if◌then◌else◌,
}
use open_vtl.Exec.{ok, err}
use open_vtl.Exec.Triple.{
  triple_bind, triple_seq, triple_pure, triple_exit, triple_exit_if, triple_or_exit,
  triple_on_error,
}
use open_vtl.Store.{Env, not_found, constraint, Tables, audit_row}
use open_vtl.Store.View.{
  View, view, At, Keeps, Effect, sql-Keeps, query-Keeps, now-Keeps, clock-Keeps,
}
use open_vtl.Store.Sessions.{
  second, has_token, insert_session, session_row, slide, drop_session, drop_stale, create_session,
  session_user, slide_session, delete_session, reap_sessions,
}
use open_vtl.Store.ApiKeys.{
  insert_key, key_has_hash, key_has_id, touch, drop_key, or_default, create_api_key, list_api_keys,
  api_key_by_hash, touch_api_key_row, delete_api_key_row, api_keys_setting,
}
use open_vtl.Prelude.{subst}
use open_vtl.Prelude.{sym}

module _ (env : Env) where
  -- An INSERT that may meet a UNIQUE constraint.
  insert-Effect :
      {A : Type 0} (taken : Bool) (a : A) (db db' : Tables) (done : Bool) (K : View → Type 0)
      → view db' done ≡ view db done
      → K (view db done)
      → Effect env (λ (_ : A). K) K done (if taken then (err constraint, db) else (ok a, db'))
  insert-Effect true a db db' done K same k = k
  insert-Effect false a db db' done K same k = subst K (sym same) k

module _ (env : Env) {K : View → Type 0} where
  pub audit_row-Keeps :
      (actor addr : List ℕ) (action : String) (subject : List ℕ)
      → Keeps env K (audit_row env actor addr action subject)
  unfolding audit_row
  audit_row-Keeps actor addr action subject =
      triple_bind (now-Keeps env) (λ ts. sql-Keeps env _ (λ db done k. k))

  pub create_session-Keeps :
      (hash : String) (id : ℤ) (expires : ℕ) (addr : List ℕ)
      → Keeps env K (create_session env hash id expires addr)
  unfolding create_session insert_session
  create_session-Keeps hash id expires addr = triple_bind (now-Keeps env) (λ created.
      triple_bind (now-Keeps env) (λ seen. sql-Keeps env _ (λ db done k.
        insert-Effect env (ltb 0 (count_rows (has_token hash) db.sessions)) tt db _ done K refl k)))

  pub session_user-Keeps : (hash : String) → Keeps env K (session_user env hash)
  unfolding session_user
  session_user-Keeps hash = triple_bind (query-Keeps env (session_row hash)) (λ row.
      triple_bind (triple_or_exit {Q = λ _. At env K} not_found row (λ e s k. k) (λ r e s k. k))
        (λ (u, s). triple_bind (clock-Keeps env) (λ t.
          triple_seq
            (triple_exit_if (u.disabled || ltb (s.expires_at * second) t) not_found (λ e s k. k)
              (λ e s k. k))
            (triple_pure (u, s.expires_at * second) (λ s k. k)))))

  pub slide_session-Keeps :
      (hash : String) (expires : ℕ) → Keeps env K (slide_session env hash expires)
  unfolding slide_session slide
  slide_session-Keeps hash expires =
      triple_bind (now-Keeps env) (λ ts. sql-Keeps env _ (λ db done k. k))

  pub delete_session-Keeps : (hash : String) → Keeps env K (delete_session env hash)
  unfolding delete_session drop_session
  delete_session-Keeps hash = sql-Keeps env _ (λ db done k. k)

  pub reap_sessions-Keeps : Keeps env K (reap_sessions env)
  unfolding reap_sessions drop_stale
  reap_sessions-Keeps = triple_bind (now-Keeps env) (λ ts. sql-Keeps env _ (λ db done k. k))

  pub create_api_key-Keeps :
      (name : List ℕ) (role hash : String) (by : List ℕ)
      → Keeps env K (create_api_key env name role hash by)
  unfolding create_api_key insert_key
  create_api_key-Keeps name role hash by = triple_bind (now-Keeps env) (λ ts.
      sql-Keeps env _ (λ db done k.
        insert-Effect env (ltb 0 (count_rows _ db.api_keys)) db.next_key db _ done K refl k))

  pub list_api_keys-Keeps : Keeps env K (list_api_keys env)
  unfolding list_api_keys
  list_api_keys-Keeps = query-Keeps env (λ db. db.api_keys)

  pub api_key_by_hash-Keeps : (hash : String) → Keeps env K (api_key_by_hash env hash)
  unfolding api_key_by_hash
  api_key_by_hash-Keeps hash =
      triple_on_error
        (triple_bind (query-Keeps env (λ db. find (key_has_hash hash) db.api_keys))
          (λ row. triple_or_exit not_found row (λ e s k. k) (λ r e s k. k)))
        (λ e. triple_exit not_found (λ s k. k))

  pub touch_api_key_row-Keeps : (id : ℕ) → Keeps env K (touch_api_key_row env id)
  unfolding touch_api_key_row touch
  touch_api_key_row-Keeps id = triple_bind (now-Keeps env) (λ ts. sql-Keeps env _ (λ db done k. k))

  pub delete_api_key_row-Keeps : (id : ℤ) → Keeps env K (delete_api_key_row env id)
  unfolding delete_api_key_row drop_key
  delete_api_key_row-Keeps id =
      triple_bind
        (triple_on_error
          (triple_bind (query-Keeps env (λ db. find (key_has_id id) db.api_keys))
            (λ row. triple_or_exit not_found row (λ e s k. k) (λ r e s k. k)))
          (λ e. triple_exit not_found (λ s k. k)))
        (λ r. triple_seq (sql-Keeps env _ (λ db done k. k)) (triple_pure r.name (λ s k. k)))

  pub api_keys_setting-Keeps : {E : Type 0} → Keeps env {E = E} K (api_keys_setting env)
  unfolding api_keys_setting
  api_keys_setting-Keeps =
      triple_on_error (query-Keeps env (λ db. or_default "" db.api_keys_enabled))
        (λ e. triple_pure "" (λ s k. k))
