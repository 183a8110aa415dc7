-- ===== src/Store/View.antt =====
-- What the accounts of openvtld/internal/store/auth.go rest on: the user table and the setup flag, with
-- a triple for each kind of statement.
use open_vtl.Prelude.{ℕ, ◌/◌, Bool, true, false, ◌≡◌, refl, List}
use open_vtl.Exec.{Result, ok, err, Exec, observe}
use open_vtl.Exec.Triple.{Triple, Ends, triple_bind, triple_pure, triple_observe}
use open_vtl.Store.{
  Env, SqlError, User, Tables, Server, Statement, sql, query, clock, now, carry_out,
}

pub record View : Type 0 where
  pub users : List User
  pub next_user : ℕ
  pub setup_done : Bool

abbrev pub view : Tables → Bool → View
view db done = record { users = db.users; next_user = db.next_user; setup_done = done }

module _ (env : Env) where
  pub record At (K : View → Type 0) (s : Server env) : Type 0 where
    pub held : K (view s.db s.setup_done)

  -- The call keeps `K`, whether it gives a value or exits.
  abbrev pub Keeps : {E A : Type 0} → (View → Type 0) → Exec (Server env) E A → Type 0
  Keeps K m = Triple (At K) m (λ _. At K) (λ _. At K)

  abbrev pub Effect :
      {A : Type 0}
      → (A → View → Type 0)
      → (View → Type 0)
      → Bool
      → Result SqlError A × Tables
      → Type 0
  Effect Q R done (ok a, db) = Q a (view db done)
  Effect Q R done (err e, db) = R (view db done)

  pub sql_triple :
      {A : Type 0} {K R : View → Type 0} {Q : A → View → Type 0} (q : Statement env A)
      → ((v : View) → K v → R v)
      → ((db : Tables) (done : Bool) → K (view db done) → Effect Q R done (q db))
      → Triple (At K) (sql env q) (λ a. At (Q a)) (λ _. At R)
  unfolding sql
  sql_triple {A = A} {K = K} {R = R} {Q = Q} q fails h = record {
    at = λ s k. run s k (env.engine_error s.world);
  }
    where
      outcome :
          (s : Server env) (w : env.World) (r : Result SqlError A × Tables)
          → Effect Q R s.setup_done r
          → Ends (λ a. At (Q a)) (λ _. At R) (r.0, record s { db = r.1; world = w })
      outcome s w (ok a, db) e = record { held = e }
      outcome s w (err x, db) e = record { held = e }

      run :
          (s : Server env)
          → At K s
          → (b : Bool × env.World) → Ends (λ a. At (Q a)) (λ _. At R) (carry_out env q s b)
      run s k (true, w) = record { held = fails (view s.db s.setup_done) k.held }
      run s k (false, w) = outcome s w (q s.db) (h s.db s.setup_done k.held)

  pub sql-Keeps :
      {A : Type 0} {K : View → Type 0} (q : Statement env A)
      → ((db : Tables) (done : Bool) → K (view db done) → Effect (λ _. K) K done (q db))
      → Keeps K (sql env q)
  sql-Keeps q h = sql_triple q (λ v k. k) h

  -- A query of the users tells how many or which there are.
  pub query_users :
      {A : Type 0} {K : View → Type 0} (f : List User → A)
      → Triple
          (At K)
          (query env (λ db. f db.users))
          (λ a. At (λ v. K v × (a ≡ f v.users)))
          (λ _. At K)
  unfolding query
  query_users {A = A} {K = K} f =
      sql_triple {Q = λ a v. K v × (a ≡ f v.users)} (λ db. (ok (f db.users), db)) (λ v k. k)
        (λ db done k. (k, refl))

  pub query-Keeps : {A : Type 0} {K : View → Type 0} (f : Tables → A) → Keeps K (query env f)
  unfolding query
  query-Keeps f = sql-Keeps (λ db. (ok (f db), db)) (λ db done k. k)

  pub clock-Keeps : {E : Type 0} {K : View → Type 0} → Keeps {E = E} K (clock env)
  unfolding clock
  clock-Keeps = record { at = λ s k. record { held = k.held } }

  pub now-Keeps : {E : Type 0} {K : View → Type 0} → Keeps {E = E} K (now env)
  unfolding now
  now-Keeps = triple_bind clock-Keeps (λ t. triple_pure (t / 1000000000) (λ s k. k))

  pub observe-Keeps :
      {E F A : Type 0} {K : View → Type 0} {m : Exec (Server env) E A}
      → Keeps K m
      → Keeps {E = F} K (observe m)
  observe-Keeps t = triple_observe t (λ a s k. k) (λ e s k. k)

  pub At-map :
      {K K' : View → Type 0} → ((v : View) → K v → K' v) → (s : Server env) → At K s → At K' s
  At-map f s k = record { held = f (view s.db s.setup_done) k.held }
