-- ===== src/Orchestrate/Targets.antt =====
-- openvtld/internal/orchestrate/fc.go: the ports that serve, and what is verified of them.
pub mod Bindings
pub mod Registry
pub mod Verdicts
use open_vtl.Prelude.Text.{ascii, bytes_eq}
use open_vtl.Prelude.Words.{trim_bytes, split_on, trimmed_parts, join_with, holds_text}
use open_vtl.Prelude.{
  ℕ, zero, suc, ◌+◌, String, str_eq, Bool, true, false, not, ◌&&◌, ◌||◌, Option, none, some, List,
  [], ◌∷◌, ◌++◌, ◌==◌, if◌then◌else◌, length, remove_rows,
}
use open_vtl.Exec.{Result, ok, err, Exec, ◌>>=◌, ◌>>◌, pure}
use open_vtl.Store.{Env, InitiatorAcl}
use open_vtl.Store.Acls.{setting}
use open_vtl.Inventory.{MhvtlDrive, MhvtlLibrary}
use open_vtl.Orchestrate.{
  naa_to_colons, Daemon, library_daemon, tape_daemon, PortState, Fault, Plant, Machine, move_world,
  look, on_server,
}
use open_vtl.Orchestrate.Luns.{Binding, expected}
use open_vtl.Orchestrate.Access.{Drift, target_absent, verify_acls}

unfoldable pub listed_ports : List ℕ → List (List ℕ)
unfolding trimmed_parts split_on
listed_ports value = trimmed_parts (split_on b',' value)

unfoldable pub enabled_ports : List (List ℕ) → List PortState → List PortState
enabled_ports dis ports = remove_rows (λ p. holds_text dis p.wwpn) ports

tapes : List MhvtlDrive → List Daemon
tapes [] = []
tapes (d ∷ ds) = tape_daemon d.queue_id ∷ tapes ds

unfoldable pub units : List MhvtlLibrary → List Daemon
unfolding tapes
units [] = []
units (l ∷ ls) = library_daemon l.id ∷ tapes l.drives ++ units ls

-- The device of a LUN, "" where the table has none.
unfoldable pub bound_to : ℕ → List (ℕ × List ℕ) → List ℕ
bound_to lun [] = []
bound_to lun ((n, dev) ∷ rest) = if n == lun then dev else bound_to lun rest

pub data Detail : Type 0 where
  stale_epoch : Detail
  not_expected : Fault → Detail
  unreadable : List ℕ → Detail
  -- the port, the LUN, the device that it has and the one that it should have
  bound_wrong : List ℕ → ℕ → List ℕ → List ℕ → Detail
  -- the port, the LUNs present and expected
  extra_luns : List ℕ → ℕ → ℕ → Detail
  drifted : List Drift → Detail
  identity_verified : ℕ → ℕ → Detail

-- A Result, and whether only a rebuild can mend it.
pub record Verdict : Type 0 where
  pub is_ok : Bool
  pub detail : Detail
  pub hard : Bool

abbrev pub failing : Detail → Bool → Verdict
failing d hard = record { is_ok = false; detail = d; hard = hard }

-- The first LUN that is bound to another device than expected.
unfoldable pub wrong_lun : List ℕ → ℕ → List (ℕ × List ℕ) → List Binding → Option Verdict
unfolding bound_to
wrong_lun port lun got [] = none
wrong_lun port lun got (b ∷ bs) =
    if not (bytes_eq (bound_to lun got) b.dev)
    then some (failing (bound_wrong port lun (bound_to lun got) b.dev) true)
    else wrong_lun port (lun + 1) got bs

abbrev pub first_or : Verdict → Bool → Option Verdict → Option Verdict
first_or v test (some w) = some w
first_or v test none = if test then some v else none

-- What is wrong with a port's table of LUNs.
unfoldable pub table_fault : List ℕ → List Binding → Option (List (ℕ × List ℕ)) → Option Verdict
unfolding wrong_lun
table_fault port want none = some (failing (unreadable port) false)
table_fault port want (some got) =
    first_or (failing (extra_luns port (length got) (length want)) true)
      (not (length got == length want)) (wrong_lun port 0 got want)

abbrev pub or_drift : List Drift → Result Verdict (List Drift) → Result Verdict (List Drift)
or_drift ds (ok more) = ok (ds ++ more)
or_drift ds (err v) = err v

abbrev pub unless_fault : Option Verdict → Result Verdict (List Drift) → Result Verdict (List Drift)
unless_fault none rest = rest
unless_fault (some v) rest = err v

abbrev pub concluded : ℕ → ℕ → Result Verdict (List Drift) → Verdict
concluded ports luns (err v) = v
concluded ports luns (ok []) = record {
  is_ok = true;
  detail = identity_verified ports luns;
  hard = false;
}
concluded ports luns (ok (d ∷ ds)) = failing (drifted (d ∷ ds)) false

module _ (env : Env) (plant : Plant env) where
  open env use {World}

  unfoldable pub disabled_ports : {E : Type 0} → Exec (Machine env) E (List (List ℕ))
  unfolding listed_ports
  disabled_ports = do
    value ← on_server env (setting env "fc.disabled_ports" [])
    pure (listed_ports value)

  unfoldable pub serving_ports : {E : Type 0} → Exec (Machine env) E (List PortState)
  unfolding enabled_ports
  serving_ports = do
    dis ← disabled_ports
    ports ← look env plant.host_ports
    pure (enabled_ports dis ports)

  abbrev pub shown : Option (List ℕ) → List ℕ
  shown none = []
  shown (some out) = trim_bytes out

  abbrev pub epoch_of : World → List Daemon → List ℕ
  epoch_of w [] = []
  epoch_of w (u ∷ us) = shown (plant.start_times (u ∷ us) w)

  -- "" with no unit, and where systemctl fails
  unfoldable pub daemon_epoch : List MhvtlLibrary → World → List ℕ
  unfolding units
  daemon_epoch libs w = epoch_of w (units libs)

  abbrev pub differs : List ℕ → Option (List ℕ) → Bool
  differs epoch none = true
  differs epoch (some built) = not (bytes_eq (trim_bytes built) epoch)

  unfoldable pub epoch_stale : List MhvtlLibrary → World → Bool
  unfolding daemon_epoch
  epoch_stale libs w =
      let epoch = daemon_epoch libs w in
      if bytes_eq epoch [] then false else differs epoch (plant.built_epoch w)

  unfoldable pub stamp_epoch : {E : Type 0} → List MhvtlLibrary → Exec (Machine env) E (Unit {0})
  unfolding daemon_epoch
  stamp_epoch libs m =
      let epoch = daemon_epoch libs m.server.world in
      if bytes_eq epoch []
      then (ok tt, m)
      else (ok tt, move_world env (plant.write_epoch (epoch ++ 10 ∷ []) m.server.world) m)

  unfoldable pub check_ports :
      List PortState → List InitiatorAcl → List Binding → World → Result Verdict (List Drift)
  unfolding table_fault
  check_ports [] rows want w = ok []
  check_ports (p ∷ ps) rows want w =
      let rest = check_ports ps rows want w in
      if not (plant.tpg_exists (naa_to_colons p.wwpn) w)
      then or_drift (target_absent p.wwpn ∷ []) rest
      else unless_fault (table_fault p.wwpn want (plant.lun_table (naa_to_colons p.wwpn) w))
          (or_drift (verify_acls env plant p.wwpn rows want w) rest)

  abbrev pub verdict_on :
      List InitiatorAcl → Result Fault (List Binding) → List PortState → World → Verdict
  verdict_on rows (err f) ports w = failing (not_expected f) false
  verdict_on rows (ok want) ports w =
      concluded (length ports) (length want) (check_ports ports rows want w)

  unfoldable pub verify_fc :
      {E : Type 0} → List MhvtlLibrary → List InitiatorAcl → Exec (Machine env) E Verdict
  unfolding epoch_stale serving_ports check_ports
  verify_fc libs rows = do
    stale ← look env (epoch_stale libs)
    if stale then pure (failing stale_epoch true) else (do
      want ← look env (λ w. expected libs (plant.discover w))
      ports ← serving_ports
      look env (verdict_on rows want ports))
