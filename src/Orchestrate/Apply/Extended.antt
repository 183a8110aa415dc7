-- ===== src/Orchestrate/Apply/Extended.antt =====
-- The acts of ApplyLibraries in openvtld/internal/orchestrate/apply.go only grow.
use open_vtl.Prelude.{
  ℕ, ◌≡◌, refl, ◌∙◌, ap, Bool, true, false, Option, none, some, List, [], ◌∷◌, ◌++◌, append_assoc,
}
use open_vtl.Exec.{Result, ok, err, Exec, ◌>>=◌, ◌>>◌, observe}
use open_vtl.Exec.Triple.{
  Triple, Ends, triple_bind, triple_seq, triple_pure, triple_exit, triple_if, triple_observe,
}
use open_vtl.Store.{Env}
use open_vtl.Inventory.{MhvtlLibrary}
use open_vtl.Orchestrate.{Fault, Plant, Machine}
use open_vtl.Orchestrate.Targets.{units}
use open_vtl.Orchestrate.Repair.{Ensured, is_empty}
use open_vtl.Orchestrate.Apply.{
  Act, reload_engine, Stop, Outcome, End, ready, all_active, Shell, Window, world_of, poll_45s,
  acted, act, placed, on_fabric, set_fc, restart, states_seen, await_daemons, serials_seen,
  await_devices, settle, conf_or_stop, missing_serials, wanted_serials, devices, read_conf,
  concluding, present,
}

module _ (env : Env) where
  -- The acts began with `first`.
  pub record Extends (first : List (Act × Bool)) (s : Window env) : Type 0 where
    pub rest : List (Act × Bool)
    pub same : s.acts ≡ first ++ rest

  abbrev pub Extending : {A : Type 0} → List (Act × Bool) → Exec (Window env) Stop A → Type 0
  Extending first f = Triple (Extends first) f (λ _. Extends first) (λ _. Extends first)

  module _ (plant : Plant env) (shell : Shell env) {first : List (Act × Bool)} where
    one_more :
        (a : Act × Bool) (s s' : Window env)
        → s'.acts ≡ s.acts ++ a ∷ []
        → Extends first s
        → Extends first s'
    one_more a s s' e x = record {
      rest = x.rest ++ a ∷ [];
      same = e ∙ ap (λ acts. acts ++ a ∷ []) x.same ∙ append_assoc first x.rest (a ∷ []);
    }

    act-Extends : (a : Act) → Extending first (act env plant shell a)
    unfolding act
    act-Extends a = record { at = λ s x. go s x (shell.perform a (world_of env s)) }
      where
        go :
            (s : Window env)
            → Extends first s
            → (r : Bool × env.World)
            → Ends (λ _. Extends first) (λ _. Extends first) (acted env plant shell a s r)
        go s x (true, w) = one_more (a, true) s _ refl x
        go s x (false, w) = one_more (a, false) s _ refl x

    maybe-Extends : (a : Act) → Extending first (observe {F = Stop} (act env plant shell a))
    maybe-Extends a = triple_observe (act-Extends a) (λ _ s x. x) (λ _ s x. x)

    restart-Extends : Extending first (restart env plant shell)
    unfolding restart
    restart-Extends = triple_seq (act-Extends _) (
        triple_seq (maybe-Extends _) (
          triple_seq (maybe-Extends _) (
            triple_seq (act-Extends _)
              (triple_seq (maybe-Extends _) (triple_seq (act-Extends _) (act-Extends _))))))

    on_fabric-Extends :
        {A : Type 0} (f : Exec (Machine env) Fault A)
        → Extending first (on_fabric env plant shell f)
    unfolding on_fabric
    on_fabric-Extends {A} f = record { at = λ s x. go s x (f s.machine) }
      where
        go :
            (s : Window env)
            → Extends first s
            → (r : Result Fault A × Machine env)
            → Ends (λ _. Extends first) (λ _. Extends first) (placed env plant shell s r)
        go s x (ok a, m) = record { rest = x.rest; same = x.same }
        go s x (err f, m) = record { rest = x.rest; same = x.same }

    same-Extends : (s s' : Window env) → s'.acts ≡ s.acts → Extends first s → Extends first s'
    same-Extends s s' e x = record { rest = x.rest; same = e ∙ x.same }

    await_daemons-Extends :
        (libs : List MhvtlLibrary) → Extending first (await_daemons env plant shell libs)
    unfolding await_daemons
    await_daemons-Extends libs = record {
      at = λ s x.
          states s x
            (poll_45s env plant (shell.is_active (units libs)) all_active (world_of env s));
    }
      where
        states :
            (s : Window env)
            → Extends first s
            → (r : (List ℕ × End) × env.World)
            → Ends (λ _. Extends first) (λ _. Extends first) (states_seen env plant shell s r)
        states s x ((out, ready), w) = same-Extends s _ refl x
        states s x ((out, _), w) = same-Extends s _ refl x

    await_devices-Extends :
        (libs : List MhvtlLibrary) → Extending first (await_devices env plant shell libs)
    unfolding await_devices
    await_devices-Extends libs = record {
      at = λ s x. serials s x (
          poll_45s env plant
            (λ w. missing_serials (devices (plant.discover w)) (wanted_serials libs)) is_empty
            (world_of env s));
    }
      where
        serials :
            (s : Window env)
            → Extends first s
            → (r : (List (List ℕ) × End) × env.World)
            → Ends (λ _. Extends first) (λ _. Extends first) (serials_seen env plant shell s r)
        serials s x (([], end), w) = same-Extends s _ refl x
        serials s x ((m ∷ ms, end), w) = same-Extends s _ refl x

    settle-Extends : (libs : List MhvtlLibrary) → Extending first (settle env plant shell libs)
    unfolding settle
    settle-Extends libs =
        triple_if (is_empty (units libs)) (λ _. triple_pure tt (λ s x. x))
          (λ _. triple_seq (await_daemons-Extends libs) (await_devices-Extends libs))

    read_conf-Extends : Extending first (read_conf env plant shell)
    unfolding read_conf
    read_conf-Extends = record { at = λ s x. go s x (shell.parse_conf (world_of env s)) }
      where
        go :
            (s : Window env)
            → Extends first s
            → (o : Option (List MhvtlLibrary))
            → Ends (λ _. Extends first) (λ _. Extends first) (conf_or_stop env plant shell o, s)
        go s x none = x
        go s x (some libs) = x

    set_fc-Extends : (o : Outcome) → Extending first (set_fc env plant shell o)
    unfolding set_fc
    set_fc-Extends o = record { at = λ s x. same-Extends s _ refl x }

    concluding-Extends : (r : Ensured) → Extending first (concluding env plant shell r)
    unfolding concluding
    concluding-Extends r =
        triple_seq (set_fc-Extends _)
          (triple_if r.is_ok (λ _. triple_pure tt (λ s x. x)) (λ _. triple_exit _ (λ s x. x)))

    present-Extends : (libs : List MhvtlLibrary) → Extending first (present env plant shell libs)
    unfolding present
    present-Extends libs = triple_bind (on_fabric-Extends _) (λ ports.
        triple_if (is_empty ports) (λ _. record { at = λ s x. (set_fc-Extends _).at s x })
          (λ _. triple_bind (on_fabric-Extends _) concluding-Extends))

    -- From the restart to the end.
    pub tail-Extends : Extending first (
        restart env plant shell
        >> (read_conf env plant shell >>= λ declared.
            settle env plant shell declared
            >> (act env plant shell reload_engine >> present env plant shell declared)))
    tail-Extends = triple_seq restart-Extends (
        triple_bind read_conf-Extends (λ declared.
          triple_seq (settle-Extends declared)
            (triple_seq (act-Extends _) (present-Extends declared))))
