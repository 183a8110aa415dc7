-- ===== src/Orchestrate/Targets/Verdicts.antt =====
-- What the verdict of verifyFC in openvtld/internal/orchestrate/fc.go says of the ports.
use open_vtl.Prelude.{
  ℕ, ◌≡◌, refl, ◌∙◌, ◌⊎◌, inl, inr, true, false, Option, none, some, List, [], ◌∷◌, Bool-cases,
  length,
}
use open_vtl.Exec.{Result, ok, err}
use open_vtl.Store.{Env, InitiatorAcl}
use open_vtl.Orchestrate.{PortState, Plant, naa_to_colons}
use open_vtl.Orchestrate.Luns.{Binding}
use open_vtl.Orchestrate.Access.{Drift, target_absent, verify_acls}
use open_vtl.Orchestrate.Targets.Bindings.{
  IsBound, IsMisbound, table_fault-IsBound, table_fault-IsMisbound, table_fault_not_ok,
}
use open_vtl.Orchestrate.Targets.Registry.{Registered, verify_acls-Registered}
use open_vtl.Orchestrate.Targets.{
  Verdict, table_fault, or_drift, unless_fault, concluded, check_ports, verdict_on,
}

module _ (env : Env) (plant : Plant env) (rows : List InitiatorAcl) (want : List Binding) where
  -- The port's target is built, bound as expected, and its ACLs are those of the registry.
  pub record IsServed (w : env.World) (p : PortState) : Type 0 where
    pub built : plant.tpg_exists (naa_to_colons p.wwpn) w ≡ true
    pub table : List (ℕ × List ℕ)
    pub readable : plant.lun_table (naa_to_colons p.wwpn) w ≡ some table
    pub bound : IsBound want table
    pub registered : Registered env plant p.wwpn rows want w

  -- The port's target is built and bound otherwise than expected.
  pub record IsWrong (w : env.World) (p : PortState) : Type 0 where
    pub built : plant.tpg_exists (naa_to_colons p.wwpn) w ≡ true
    pub table : List (ℕ × List ℕ)
    pub readable : plant.lun_table (naa_to_colons p.wwpn) w ≡ some table
    pub misbound : IsMisbound want table

  abbrev pub EachServed : env.World → List PortState → Type 0
  EachServed w [] = Unit {0}
  EachServed w (p ∷ ps) = IsServed w p × EachServed w ps

  abbrev pub SomeWrong : env.World → List PortState → Type 0
  SomeWrong w [] = ⊥
  SomeWrong w (p ∷ ps) = IsWrong w p ⊎ SomeWrong w ps

  joined_clean :
      (ds : List Drift) (rest : Result Verdict (List Drift))
      → or_drift ds rest ≡ ok []
      → (ds ≡ []) × (rest ≡ ok [])
  joined_clean [] (ok more) e = (refl, e)
  joined_clean (d ∷ ds) (ok more) e = absurd (cc)
  joined_clean ds (err v) e = absurd (cc)

  joined_fault :
      (ds : List Drift) (rest : Result Verdict (List Drift)) (v : Verdict)
      → or_drift ds rest ≡ err v
      → rest ≡ err v
  joined_fault ds (ok more) v e = absurd (cc)
  joined_fault ds (err u) v e = e

  each_served :
      (w : env.World) (ps : List PortState)
      → check_ports env plant ps rows want w ≡ ok []
      → EachServed w ps
  unfolding check_ports
  each_served w [] e = tt
  each_served w (p ∷ ps) e = elim (Bool-cases (plant.tpg_exists (naa_to_colons p.wwpn) w)) [
    | inr absent ↦
        absurd
          (some_drift _ (joined_clean _ (check_ports env plant ps rows want w) (rw absent at e)).0)
    | inl built ↦ checked (each_served w ps) built _ refl (rw built at e)
  ]
    where
      some_drift : (x : Drift) → x ∷ [] ≡ [] → ⊥
      some_drift x h = cc

      checked :
          (check_ports env plant ps rows want w ≡ ok [] → EachServed w ps)
          → plant.tpg_exists (naa_to_colons p.wwpn) w ≡ true
          → (o : Option Verdict)
          → table_fault p.wwpn want (plant.lun_table (naa_to_colons p.wwpn) w) ≡ o
          → unless_fault o (
              or_drift
                (verify_acls env plant p.wwpn rows want w)
                (check_ports env plant ps rows want w))
            ≡ ok []
          → EachServed w (p ∷ ps)
      checked ih built (some v) found h = absurd (cc)
      checked ih built none found h =
          let (got, readable, bound) = table_fault-IsBound want p.wwpn _ found in
          let (clean, rest) = joined_clean _ _ h in
          (
            record {
              built = built;
              table = got;
              readable = readable;
              bound = bound;
              registered = verify_acls-Registered env plant p.wwpn rows want w clean;
            },
            ih rest,
          )

  -- A fault is that of a later port, or of the table of a target that is built.
  first_fault :
      (w : env.World) (p : PortState) (ps : List PortState) (v : Verdict)
      → check_ports env plant (p ∷ ps) rows want w ≡ err v
      → (check_ports env plant ps rows want w ≡ err v)
        ⊎ ((plant.tpg_exists (naa_to_colons p.wwpn) w ≡ true)
            × (table_fault p.wwpn want (plant.lun_table (naa_to_colons p.wwpn) w) ≡ some v))
  unfolding check_ports
  first_fault w p ps v e = elim (Bool-cases (plant.tpg_exists (naa_to_colons p.wwpn) w)) [
    | inr absent ↦ inl (joined_fault (target_absent p.wwpn ∷ []) _ v (rw absent at e))
    | inl built ↦ checked built _ refl (rw built at e)
  ]
    where
      same_fault :
          (u : Verdict) → ◌≡◌ {A = Result Verdict (List Drift)} (err u) (err v) → some u ≡ some v
      same_fault u h = cc

      checked :
          plant.tpg_exists (naa_to_colons p.wwpn) w ≡ true
          → (o : Option Verdict)
          → table_fault p.wwpn want (plant.lun_table (naa_to_colons p.wwpn) w) ≡ o
          → unless_fault o (
              or_drift
                (verify_acls env plant p.wwpn rows want w)
                (check_ports env plant ps rows want w))
            ≡ err v
          → (check_ports env plant ps rows want w ≡ err v)
            ⊎ ((plant.tpg_exists (naa_to_colons p.wwpn) w ≡ true)
                × (table_fault p.wwpn want (plant.lun_table (naa_to_colons p.wwpn) w) ≡ some v))
      checked built none found h = inl (joined_fault _ _ v h)
      checked built (some u) found h = inr (built, found ∙ same_fault u h)

  fault_not_ok :
      (w : env.World) (ps : List PortState) (v : Verdict)
      → check_ports env plant ps rows want w ≡ err v
      → v.is_ok ≡ false
  unfolding check_ports
  fault_not_ok w [] v e = absurd (cc)
  fault_not_ok w (p ∷ ps) v e = elim (first_fault w p ps v e) [
    | inl later ↦ fault_not_ok w ps v later
    | inr (built, found) ↦ table_fault_not_ok want p.wwpn _ v found
  ]

  some_wrong :
      (w : env.World) (ps : List PortState) (v : Verdict)
      → check_ports env plant ps rows want w ≡ err v
      → v.hard ≡ true
      → SomeWrong w ps
  unfolding check_ports
  some_wrong w [] v e hard = absurd (cc)
  some_wrong w (p ∷ ps) v e hard = elim (first_fault w p ps v e) [
    | inl later ↦ inr (some_wrong w ps v later hard)
    | inr (built, found) ↦
        let (got, readable, misbound) = table_fault-IsMisbound want p.wwpn _ v found hard in
        inl (record { built = built; table = got; readable = readable; misbound = misbound })
  ]

  -- With the expected table, a verdict that all is well means that the target of every port is built and
  -- has exactly the expected device at each LUN, and that each initiator of the registry has an ACL on it
  -- if its port set allows, with exactly the LUNs of the libraries that its library set allows, and no ACL
  -- otherwise; and a fault that only a rebuild mends means that on some port a target that is built has another
  -- device at a LUN, or another number of LUNs.
  pub verdict_on_lem :
      (ports : List PortState) (w : env.World)
      → ((verdict_on env plant rows (ok want) ports w).is_ok ≡ true → EachServed w ports)
        × ((verdict_on env plant rows (ok want) ports w).hard ≡ true → SomeWrong w ports)
  verdict_on_lem ports w = judged (check_ports env plant ports rows want w) refl
    where
      judged :
          (r : Result Verdict (List Drift))
          → check_ports env plant ports rows want w ≡ r
          → ((concluded (length ports) (length want) r).is_ok ≡ true → EachServed w ports)
            × ((concluded (length ports) (length want) r).hard ≡ true → SomeWrong w ports)
      judged (ok []) e = (λ _. each_served w ports e, λ h. absurd (cc))
      judged (ok (d ∷ ds)) e = (λ h. absurd (cc), λ h. absurd (cc))
      judged (err v) e =
          (λ h. absurd (cc (fault_not_ok w ports v e)), λ hard. some_wrong w ports v e hard)
