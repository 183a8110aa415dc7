-- ===== src/Tests/Orchestrate.antt =====
-- A machine with one FC port, on which every command succeeds, and runs of the orchestration on it
-- (openvtld/internal/orchestrate).
use open_vtl.Prelude.Text.{ascii, bytes_eq, bytes_eq_sound}
use open_vtl.Prelude.Words.{bytes_eq_refl}
use open_vtl.Prelude.{
  ℕ, ◌+◌, ◌≡◌, refl, sym, ◌∙◌, ap, Bool, true, false, ◌&&◌, Option, none, some, List, [], ◌∷◌,
  Bool-cases, inl, inr, if◌then◌else◌,
}
use open_vtl.Exec.{ok}
use open_vtl.Exec.Triple.{Ends}
use open_vtl.Store.{Env, InitiatorAcl}
use open_vtl.Inventory.{MhvtlLibrary, SgDevice}
use open_vtl.Orchestrate.{
  Command, create_acl, delete_acl, create_mapped, naa_to_colons, PortState, Plant, Machine,
}
use open_vtl.Orchestrate.Luns.{Binding}
use open_vtl.Orchestrate.Access.{
  create_with, reconcile_as, reconcile_row, acl_exists, fc_in_scope, sort_ints, verify_acls,
  reconcile_acls,
}
use open_vtl.Orchestrate.Access.Effects.{
  put, sorted, with_lun, sorted_at, IsTargetcli, Stopped, Unlisted,
}
use open_vtl.Orchestrate.Access.Converged.{reconcile_acls_lem}
use open_vtl.Inventory.Snapshot.{LibrarySnapshot}
use open_vtl.Orchestrate.{look, each, tc}
use open_vtl.Store.Acls.{library_set}
use open_vtl.Orchestrate.Luns.{mapped_luns, mapped_from, in_library_scope}
use open_vtl.Orchestrate.Targets.{verdict_on, check_ports, table_fault, wrong_lun, bound_to}
use open_vtl.Orchestrate.Targets.Verdicts.{EachServed, SomeWrong, verdict_on_lem}
use open_vtl.Orchestrate.Repair.{reconcile_access, set_port_serving, ensure}
use open_vtl.Orchestrate.Additive.{Added}
use open_vtl.Orchestrate.Additive.CardinalRule.{NotHard, first_check, cardinal_rule}
use open_vtl.Orchestrate.Apply.{Shell, Window, not_reached, poll_45s, apply_libraries}
use open_vtl.Orchestrate.Apply.Ordered.{IsOrdered, apply_libraries-IsOrdered}
use open_vtl.Orchestrate.Apply.Polled.{IsEnd, IsTicking, seconds_45, poll_45s-IsEnd}
use native.Mathlib.Nat.{le_refl, le_of_eq}
use open_vtl.Prelude.{ltb}
use open_vtl.Tests.Api.{empty_tables}

-- The ACL directories of a port.
abbrev pub Directories : Type 0
Directories = List ℕ → List ℕ → Option (List ℕ)

pub record World : Type 0 where
  pub clock : ℕ
  pub acls : Directories

abbrev pub bench : Env
bench = record {
  World = World;
  engine_error = λ w. (false, w);
  time_now = λ w. (w.clock, w);
  random_token = λ w. (none, w);
  hash_token = λ t. "hash";
  hash_password = λ p w. (none, w);
  verify_password = λ p h. false;
}

abbrev pub change_at :
    List ℕ → List ℕ → (Option (List ℕ) → Option (List ℕ)) → Directories → Directories
change_at port wwpn f acls p d =
    if bytes_eq (naa_to_colons port) p && bytes_eq (naa_to_colons wwpn) d
    then f (acls p d)
    else acls p d

abbrev pub with_first : ℕ → Option (List ℕ) → Option (List ℕ)
with_first n none = none
with_first n (some luns) = some (n ∷ luns)

abbrev pub change_acls : Command → Directories → Directories
change_acls (create_acl port wwpn) acls = change_at port wwpn (λ o. some []) acls
change_acls (delete_acl port wwpn) acls = change_at port wwpn (λ o. none) acls
change_acls (create_mapped port wwpn lun) acls = change_at port wwpn (with_first lun) acls
change_acls _ acls = acls

abbrev pub port : PortState
port = record {
  host = ascii "host1";
  wwpn = ascii "naa.21aa";
  state = ascii "Online";
  speed = ascii "8 Gbit";
}

abbrev pub device : SgDevice
device = record {
  kind = "mediumx";
  product = [];
  serial = ascii "OVTL1";
  sg = ascii "/dev/sg1";
  aux = [];
}

abbrev pub rig : Plant bench
rig = record {
  host_ports = λ w. port ∷ [];
  targetcli = λ c w. (false, record w { acls = change_acls c w.acls });
  discover = λ w. some (device ∷ []);
  target_exists = λ p w. true;
  tpg_exists = λ p w. true;
  lun_table = λ p w. some ((0, ascii "/dev/sg1") ∷ []);
  acl_at = λ p d w. w.acls p d;
  backstores = λ w. [];
  start_times = λ us w. none;
  built_epoch = λ w. none;
  write_epoch = λ s w. w;
  firmware_file = λ f w. true;
  wait = λ w. (false, record w { clock = w.clock + 2000000000 });
}

abbrev pub blank : Machine bench
blank = record {
  server = record {
    db = empty_tables;
    setup_done = true;
    world = record { clock = 0; acls = λ p d. none };
  };
  issued = [];
}

abbrev pub host_acl : InitiatorAcl
host_acl = record {
  wwpn = ascii "naa.10bb";
  alias = [];
  fabric = "fc";
  ports = [];
  libraries = ascii "10";
  created_at = 0;
}

abbrev pub changer : Binding
changer = record { name = ascii "mhvtl_l10_chgr"; dev = ascii "/dev/sg1"; lib = 10 }

changed :
    (port wwpn d : List ℕ) (f : Option (List ℕ) → Option (List ℕ)) (acls : Directories)
    (v : Option (List ℕ))
    → (naa_to_colons wwpn ≡ d → sorted (f (acls (naa_to_colons port) d)) ≡ v)
    → sorted (change_at port wwpn f acls (naa_to_colons port) d)
      ≡ put (naa_to_colons wwpn) v (λ d'. sorted (acls (naa_to_colons port) d')) d
changed port wwpn d f acls v h =
    rw (bytes_eq_refl (naa_to_colons port)) (elim (Bool-cases (bytes_eq (naa_to_colons wwpn) d)) [
      | inl same ↦ rw same (h (bytes_eq_sound (naa_to_colons wwpn) d same))
      | inr other ↦ rw other
    ])

next_acls :
    (acls : Directories) (w w' : World)
    → ◌≡◌ {A = Bool × World} (false, record w { acls = acls }) (false, w')
    → w'.acls ≡ acls
next_acls acls w w' e = sym (ap (λ (p : Bool × World). let v = p.1 in v.acls) e)

mapped_sorted :
    (lun : ℕ) (o : Option (List ℕ)) → sorted (with_first lun o) ≡ with_lun lun (sorted o)
unfolding sort_ints
mapped_sorted lun none = refl
mapped_sorted lun (some luns) = refl

rig-IsTargetcli : IsTargetcli bench rig
unfolding sort_ints
rig-IsTargetcli = record {
  creates = λ p x w w' e d.
      ap (λ (acls : Directories). sorted (acls (naa_to_colons p) d)) (next_acls _ w w' e)
      ∙ changed p x d (λ o. some []) w.acls (some []) (λ _. refl);
  deletes = λ p x w w' e d.
      ap (λ (acls : Directories). sorted (acls (naa_to_colons p) d)) (next_acls _ w w' e)
      ∙ changed p x d (λ o. none) w.acls none (λ _. refl);
  maps = λ p x lun w w' e d.
      ap (λ (acls : Directories). sorted (acls (naa_to_colons p) d)) (next_acls _ w w' e)
      ∙ changed p x d (with_first lun) w.acls _ (λ same.
        mapped_sorted lun _
        ∙ ap (λ d'. with_lun lun (sorted (w.acls (naa_to_colons p) d'))) (sym same));
}

reconcile_acls_lem_example :
    Ends
      (λ _ (m' : Machine bench).
        (verify_acls bench rig port.wwpn (host_acl ∷ []) (changer ∷ []) m'.server.world ≡ [])
        × ((d : List ℕ)
            → Unlisted d (host_acl ∷ [])
            → sorted_at bench rig port.wwpn m'.server.world d
              ≡ sorted_at bench rig port.wwpn blank.server.world d))
      (Stopped bench rig port.wwpn)
      (reconcile_acls bench rig port.wwpn (host_acl ∷ []) (changer ∷ []) blank)
reconcile_acls_lem_example =
    reconcile_acls_lem bench rig port.wwpn rig-IsTargetcli (host_acl ∷ []) (changer ∷ []) blank
      (tt, tt)

-- The ACL is made, with the LUN of library 10.
acl_made : (reconcile_acls bench rig port.wwpn (host_acl ∷ []) (changer ∷ []) blank).0 ≡ ok tt
unfolding reconcile_acls reconcile_row reconcile_as create_with look each tc acl_exists fc_in_scope
    mapped_luns mapped_from in_library_scope library_set
acl_made = refl

abbrev pub library_10 : MhvtlLibrary
library_10 = record {
  id = 10;
  target = 0;
  serial = ascii "OVTL1";
  product = ascii "3573-TL";
  home_dir = ascii "/pool";
  drives = [];
  barcodes = [];
}

cardinal_rule_example :
    Ends
      (λ _. Added bench blank.issued)
      (λ _. Added bench blank.issued)
      (reconcile_access bench rig (library_10 ∷ []) blank)
    × ((wwn : List ℕ)
        → Ends
            (λ _. Added bench blank.issued)
            (λ _. Added bench blank.issued)
            (set_port_serving bench rig (library_10 ∷ []) wwn true blank))
    × (NotHard (first_check bench rig (library_10 ∷ []) blank).0
        → Ends
            (λ _. Added bench blank.issued)
            (λ _. Added bench blank.issued)
            (ensure bench rig (library_10 ∷ []) blank))
cardinal_rule_example = cardinal_rule bench rig (library_10 ∷ []) blank

verdict_on_lem_example :
    ((verdict_on bench rig [] (ok (changer ∷ [])) (port ∷ []) blank.server.world).is_ok ≡ true
      → EachServed bench rig [] (changer ∷ []) blank.server.world (port ∷ []))
    × ((verdict_on bench rig [] (ok (changer ∷ [])) (port ∷ []) blank.server.world).hard ≡ true
        → SomeWrong bench rig [] (changer ∷ []) blank.server.world (port ∷ []))
verdict_on_lem_example = verdict_on_lem bench rig [] (changer ∷ []) (port ∷ []) blank.server.world

-- The port of the machine is verified.
port_verified :
    (verdict_on bench rig [] (ok (changer ∷ [])) (port ∷ []) blank.server.world).is_ok ≡ true
unfolding check_ports table_fault wrong_lun bound_to verify_acls
port_verified = refl

abbrev pub idle_library : LibrarySnapshot
idle_library = record {
  library = record {
    id = 10;
    product = [];
    serial = [];
    home_dir = [];
    num_slots = 1;
    num_ie = 1;
    num_drives = 1;
    changer_sg = [];
    live = true;
  };
  drives =
      record {
        index = 0;
        library = 10;
        queue_id = 11;
        serial = [];
        product = [];
        sg = [];
        st = [];
        loaded = [];
        source_slot = 0;
        activity = "idle";
      }
      ∷ [];
  slots = [];
  carts = [];
}

abbrev pub shell : Shell bench
shell = record {
  snapshot = λ w. idle_library ∷ [];
  perform = λ a w. (false, w);
  parse_conf = λ w. some (library_10 ∷ []);
  is_active = λ us w. ascii "active";
}

abbrev pub opened : Window bench
opened = record { machine = blank; acts = []; fc = not_reached }

apply_libraries-IsOrdered_example :
    Ends
      (λ _. IsOrdered bench rig shell opened)
      (λ _. IsOrdered bench rig shell opened)
      (apply_libraries bench rig shell opened)
apply_libraries-IsOrdered_example = apply_libraries-IsOrdered bench rig shell opened

rig-IsTicking : IsTicking bench rig
rig-IsTicking = record {
  forward = λ w. le_refl w.clock;
  waits = λ w w' e. le_of_eq (ap (λ (p : Bool × World). let v = p.1 in v.clock) e);
}

poll_45s-IsEnd_example :
    let w = blank.server.world in
    IsEnd bench rig
      (λ w'. w'.clock)
      (λ (n : ℕ). ltb 100 n)
      (w.clock + seconds_45)
      (poll_45s bench rig (λ w'. w'.clock) (λ n. ltb 100 n) w)
poll_45s-IsEnd_example =
    poll_45s-IsEnd bench rig rig-IsTicking (λ w. w.clock) (λ n. ltb 100 n) blank.server.world
