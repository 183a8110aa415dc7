-- ===== src/Store/Snapshot.antt =====
-- Queries and changes of openvtld/internal/store on a database that is known.
use open_vtl.Prelude.{◌≢◌, ◌∙◌, ℕ, ◌≤◌, ◌≡◌, ap, Bool, true, false}
use open_vtl.Exec.{Result, ok, err}
use open_vtl.Exec.Triple.{Triple, Ends}
use open_vtl.Store.{
  now, SqlError, clock, sql, carry_out, Statement, Env, Tables, Server, sql, query, clock,
  carry_out,
}

module _ (env : Env) where
  pub record Holds (db : Tables) (s : Server env) : Type 0 where
    pub same : s.db ≡ db

  module _ (db : Tables) where
    pub query_finds :
        {A : Type 0} (f : Tables → A)
        → Triple (Holds db) (query env f) (λ a s. Holds db s × (a ≡ f db)) (λ _. Holds db)
    unfolding query sql
    query_finds {A = A} f = record { at = λ s k. run s k (env.engine_error s.world) }
      where
        run :
            (s : Server env)
            → Holds db s
            → (b : Bool × env.World)
            → Ends
                (λ a s. Holds db s × (a ≡ f db))
                (λ _. Holds db)
                (carry_out env {A = A} (λ t. (ok (f t), t)) s b)
        run s k (true, w) = record { same = k.same }
        run s k (false, w) = (record { same = k.same }, ap f k.same)

    -- A change whose effect on the tables is known, or nothing.
    pub sql_step :
        {A : Type 0} (q : Statement env A) (a : A) (after : Tables)
        → q db ≡ (ok a, after)
        → Triple (Holds db) (sql env q) (λ x. Holds after) (λ _. Holds db)
    unfolding sql
    sql_step {A = A} q a after effect = record { at = λ s k. run s k (env.engine_error s.world) }
      where
        outcome :
            (s : Server env) (w : env.World) (r : Result SqlError A × Tables)
            → r ≡ (ok a, after)
            → Ends (λ x. Holds after) (λ _. Holds db) (r.0, record s { db = r.1; world = w })
        outcome s w (ok x, t) e = record { same = ap (λ r. r.1) e }
        outcome s w (err x, t) e = absurd (err_is_not_ok (ap (λ r. r.0) e))
          where
            err_is_not_ok : err x ≢ ok a
            err_is_not_ok h = cc

        run :
            (s : Server env)
            → Holds db s
            → (b : Bool × env.World) → Ends (λ x. Holds after) (λ _. Holds db) (carry_out env q s b)
        run s k (true, w) = record { same = k.same }
        run s k (false, w) = outcome s w (q s.db) (ap q k.same ∙ effect)

    -- A clock that never reads below `t0`.
    pub clock_reads :
        {E : Type 0} (t0 : ℕ)
        → ((w : env.World) → t0 ≤ (env.time_now w).0)
        → Triple (Holds db) (clock env {E = E}) (λ t s. Holds db s × (t0 ≤ t)) (λ _. Holds db)
    unfolding clock
    clock_reads t0 h = record { at = λ s k. (record { same = k.same }, h s.world) }

    pub now-Holds :
        {E : Type 0} → Triple (Holds db) (now env {E = E}) (λ t. Holds db) (λ e. Holds db)
    unfolding now clock
    now-Holds = record { at = λ s k. record { same = k.same } }
