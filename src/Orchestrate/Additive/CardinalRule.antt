-- ===== src/Orchestrate/Additive/CardinalRule.antt =====
-- When Ensure, ReconcileAccess and SetPortServing of openvtld/internal/orchestrate/fc.go leave every
-- target in place.
use open_vtl.Prelude.Text.{bytes_eq}
use open_vtl.Prelude.{
  ℕ, arith, ◌≡◌, refl, Bool, true, false, not, ◌&&◌, List, [], ◌∷◌, Bool-cases, inl, inr,
  if◌then◌else◌,
}
use open_vtl.Exec.{Result, ok, err, Exec, ◌>>=◌, pure, observe, observe_run, then_run}
use open_vtl.Exec.Triple.{Ends, triple_bind, triple_seq, triple_pure, triple_if}
use open_vtl.Store.{Env, InitiatorAcl}
use open_vtl.Store.Acls.{list_acls}
use open_vtl.Inventory.{MhvtlLibrary}
use open_vtl.Orchestrate.{Command, Fault, PortState, Plant, Machine, on_db}
use open_vtl.Orchestrate.Luns.{Binding}
use open_vtl.Orchestrate.Targets.{
  Verdict, disabled_ports, serving_ports, stamp_epoch, verify_fc, daemon_epoch,
}
use open_vtl.Orchestrate.Repair.{
  ensure_port, stamp_if_unbuilt, ensure_fc_additive, reconcile_port, reconcile_access,
  set_port_serving, filter_fabric, is_empty, report, mend, ensure_rows, ensure, parts_of,
  fc_ensure_failed, no_fabric,
}
use open_vtl.Orchestrate.Additive.{
  Added, Adds, Added-start, Added-same, look-Adds, on_db-Adds, on_server-Adds, each-Adds,
  observe-Adds, tc-Adds, reconcile_acls-Adds, serving_ports-Adds, create_fc_target-Adds,
  get_expected-Adds, reuse_backstores-Adds,
}

-- A verification, if there was one, that found no fault which only a rebuild mends.
abbrev pub NotHard : Result Fault Verdict → Type 0
NotHard (ok v) = v.hard ≡ false
NotHard (err f) = Unit {0}

and_false : (a b : Bool) → b ≡ false → (a && b) ≡ true → ⊥
and_false a b h e = ground arith

module _ (env : Env) (plant : Plant env) where
  -- What Ensure does before it mends anything: it reads the ports and the registry, and verifies.
  unfoldable pub first_check : List MhvtlLibrary → Exec (Machine env) Fault Verdict
  first_check libs = do
    ports ← serving_ports env plant
    rows ← on_db env (list_acls env "")
    verify_fc env plant libs (filter_fabric rows "fc")

  module _ {before : List Command} where
    stamp-Adds :
        {E : Type 0} (libs : List MhvtlLibrary)
        → Adds env {E = E} before (stamp_epoch env plant libs)
    unfolding stamp_epoch
    stamp-Adds libs = record {
      at = λ m a. elim (Bool-cases (bytes_eq (daemon_epoch env plant libs m.server.world) [])) [
        | inl none_known ↦ rw none_known a
        | inr known ↦ rw known (Added-same env m _ refl a)
      ];
    }

    ensure_port-Adds :
        (rows : List InitiatorAcl) (want : List Binding) (p : PortState)
        → Adds env before (ensure_port env plant rows want p)
    unfolding ensure_port
    ensure_port-Adds rows want p = triple_bind (look-Adds env _) (λ built.
        triple_seq
          (triple_if built (λ _. triple_pure tt (λ m a. a))
            (λ _. create_fc_target-Adds env plant p.wwpn want))
          (reconcile_acls-Adds env plant p.wwpn rows want))

    ensure_fc_additive-Adds :
        (libs : List MhvtlLibrary) (rows : List InitiatorAcl)
        → Adds env before (ensure_fc_additive env plant libs rows)
    unfolding ensure_fc_additive stamp_if_unbuilt
    ensure_fc_additive-Adds libs rows = triple_bind (get_expected-Adds env plant libs) (λ want.
        triple_seq (observe-Adds env _ (tc-Adds env plant _ tt)) (
          triple_bind (look-Adds env _) (λ live.
            triple_bind (reuse_backstores-Adds env plant live want) (λ want'.
              triple_bind (serving_ports-Adds env plant) (λ ports.
                triple_seq (each-Adds env _ ports (ensure_port-Adds rows want')) (
                  triple_seq (tc-Adds env plant _ tt) (
                    triple_bind (look-Adds env _) (λ unbuilt.
                      triple_if unbuilt (λ _. stamp-Adds libs)
                        (λ _. triple_pure tt (λ m a. a))))))))))

    reconcile_access-Adds :
        (libs : List MhvtlLibrary) → Adds env before (reconcile_access env plant libs)
    unfolding reconcile_access reconcile_port
    reconcile_access-Adds libs = triple_bind (on_db-Adds env _) (λ rows.
        triple_bind (get_expected-Adds env plant libs) (λ want.
          triple_seq (observe-Adds env _ (tc-Adds env plant _ tt)) (
            triple_bind (serving_ports-Adds env plant) (λ ports.
              triple_seq
                (each-Adds env _ ports (λ p. triple_bind (look-Adds env _) (λ built.
                  triple_if built (λ _. reconcile_acls-Adds env plant p.wwpn _ want)
                    (λ _. triple_pure tt (λ m a. a)))))
                (tc-Adds env plant _ tt)))))

    disabled_ports-Adds : {E : Type 0} → Adds env {E = E} before (disabled_ports env plant)
    unfolding disabled_ports
    disabled_ports-Adds = triple_bind (on_server-Adds env _) (λ value. triple_pure _ (λ m a. a))

    enable_port-Adds :
        (libs : List MhvtlLibrary) (wwn : List ℕ)
        → Adds env before (set_port_serving env plant libs wwn true)
    unfolding set_port_serving
    enable_port-Adds libs wwn = triple_bind disabled_ports-Adds (λ dis.
        triple_seq (on_db-Adds env _)
          (triple_bind (on_db-Adds env _) (λ rows. ensure_fc_additive-Adds libs rows)))

    verify_fc-Adds :
        {E : Type 0} (libs : List MhvtlLibrary) (rows : List InitiatorAcl)
        → Adds env {E = E} before (verify_fc env plant libs rows)
    unfolding verify_fc
    verify_fc-Adds libs rows = triple_bind (look-Adds env _) (λ stale.
        triple_if stale (λ _. triple_pure _ (λ m a. a))
          (λ _.
            triple_bind (look-Adds env _)
              (λ want. triple_bind (serving_ports-Adds env plant) (λ ports. look-Adds env _))))

    report-Adds :
        (all_ok : Bool) (v : Verdict) (parts : List _)
        → Adds env before (report env plant all_ok parts v)
    unfolding report
    report-Adds all_ok v parts = triple_bind (look-Adds env _) (λ missing. triple_pure _ (λ m a. a))

    mend-Adds :
        (libs : List MhvtlLibrary) (rows : List InitiatorAcl) (v : Verdict)
        → v.hard ≡ false
        → Adds env before (mend env plant libs rows v)
    unfolding mend
    mend-Adds libs rows v soft =
        triple_if (not v.is_ok && v.hard) (λ e. absurd (and_false (not v.is_ok) v.hard soft e))
          (λ _.
            triple_if (not v.is_ok)
              (λ _. triple_bind (observe-Adds env _ (ensure_fc_additive-Adds libs rows)) (λ r.
                triple_bind (verify_fc-Adds libs rows)
                  (λ v'. report-Adds true v' (parts_of env plant fc_ensure_failed r))))
              (λ _. report-Adds true v []))

  -- From here on the reading of the ports, of the registry and the verification, in turn.
  module _ (libs : List MhvtlLibrary) (before : List Command) where
    abbrev Ended : {A : Type 0} → Result Fault A × Machine env → Type 0
    Ended x = Ends (λ _. Added env before) (λ _. Added env before) x

    verified :
        (rows : List InitiatorAcl) (x : Result Fault Verdict × Machine env)
        → Ended x
        → NotHard x.0
        → Ended (then_run (mend env plant libs rows) x)
    verified rows (ok v, m) a soft = (mend-Adds libs rows v soft).at m a
    verified rows (err f, m) a soft = a

    rows_read :
        (x : Result Fault (List InitiatorAcl) × Machine env)
        → Ended x
        → NotHard (then_run (λ rows. verify_fc env plant libs (filter_fabric rows "fc")) x).0
        → Ended (then_run (ensure_rows env plant libs) (observe_run {F = Fault} x))
    unfolding ensure_rows
    rows_read (ok rows, m) a soft =
        verified (filter_fabric rows "fc") (verify_fc env plant libs (filter_fabric rows "fc") m)
          ((verify_fc-Adds libs (filter_fabric rows "fc")).at m a) soft
    rows_read (err f, m) a soft = a

    ports_read :
        (x : Result Fault (List PortState) × Machine env)
        → Ended x
        → NotHard
            (then_run
              (λ ports. on_db env (list_acls env "") >>= λ rows.
                verify_fc env plant libs (filter_fabric rows "fc"))
              x).0
        → Ended (
            then_run
              (λ ports.
                if is_empty ports
                then pure (record { is_ok = true; parts = no_fabric ∷ [] })
                else (observe (on_db env (list_acls env "")) >>= ensure_rows env plant libs))
              x)
    ports_read (ok [], m) a soft = a
    ports_read (ok (p ∷ ps), m) a soft =
        rows_read (on_db env (list_acls env "") m) ((on_db-Adds env _).at m a) soft
    ports_read (err f, m) a soft = a

    ensure-Adds :
        (m : Machine env)
        → Added env before m
        → NotHard (first_check libs m).0
        → Ended (ensure env plant libs m)
    unfolding ensure first_check
    ensure-Adds m a soft =
        ports_read (serving_ports env plant m) ((serving_ports-Adds env plant).at m a) soft

  -- Whatever fails, ReconcileAccess and the enabling of a port issue no clearconfig and delete no
  -- target; and so does Ensure, unless the verification with which it begins finds a fault that only a
  -- rebuild mends.
  pub cardinal_rule :
      (libs : List MhvtlLibrary) (m : Machine env)
      → Ends (λ _. Added env m.issued) (λ _. Added env m.issued) (reconcile_access env plant libs m)
        × ((wwn : List ℕ)
            → Ends
                (λ _. Added env m.issued)
                (λ _. Added env m.issued)
                (set_port_serving env plant libs wwn true m))
        × (NotHard (first_check libs m).0
            → Ends (λ _. Added env m.issued) (λ _. Added env m.issued) (ensure env plant libs m))
  cardinal_rule libs m = (
    (reconcile_access-Adds libs).at m (Added-start env m),
    λ wwn. (enable_port-Adds libs wwn).at m (Added-start env m),
    ensure-Adds libs m.issued m (Added-start env m),
  )
