-- ===== src/Orchestrate/Repair.antt =====
-- openvtld/internal/orchestrate/fc.go: targets built, repaired additively and rebuilt.
use open_vtl.Prelude.Text.{bytes_eq}
use open_vtl.Prelude.Words.{join_with}
use open_vtl.Prelude.{
  ℕ, zero, suc, ◌+◌, String, str_eq, Bool, true, false, not, ◌&&◌, ◌||◌, Option, none, some, List,
  [], ◌∷◌, ◌++◌, if◌then◌else◌, remove_rows,
}
use open_vtl.Exec.{Result, ok, err, Exec, ◌>>=◌, ◌>>◌, pure, exit, observe, exit_if}
use open_vtl.Store.{Env, InitiatorAcl}
use open_vtl.Store.Acls.{bytes_le, list_acls, set_setting}
use open_vtl.Inventory.{MhvtlLibrary}
use open_vtl.Orchestrate.{
  naa_to_colons, set_global, clear_config, save_config, create_backstore, create_target,
  set_attributes, delete_target, create_lun, PortState, FailedPart, port_failed, save_failed, Fault,
  nothing_to_build, cancelled, rebuilt_with, Plant, Machine, move_world, look, on_db, each, tc,
}
use open_vtl.Orchestrate.Luns.{Binding, expected}
use open_vtl.Orchestrate.Access.{reconcile_acls}
use open_vtl.Orchestrate.Targets.{
  Detail, Verdict, disabled_ports, serving_ports, stamp_epoch, verify_fc,
}

-- The set of ports as its list in order, for it is stored sorted.
insert_text : List ℕ → List (List ℕ) → List (List ℕ)
insert_text s [] = s ∷ []
insert_text s (t ∷ ts) =
    let rest = insert_text s ts in
    if bytes_eq s t then t ∷ ts else (if bytes_le s t then s ∷ t ∷ ts else t ∷ rest)

text_set : List (List ℕ) → List (List ℕ)
text_set [] = []
text_set (s ∷ ss) = insert_text s (text_set ss)

unfoldable pub switched : List ℕ → Bool → List (List ℕ) → List (List ℕ)
unfolding text_set insert_text
switched wwn serving dis =
    if serving
    then remove_rows (λ s. bytes_eq s wwn) (text_set dis)
    else insert_text wwn (text_set dis)

-- The name of a live backstore on the device.
unfoldable pub name_of : List ℕ → List (List ℕ × List ℕ) → Option (List ℕ)
name_of dev [] = none
name_of dev ((d, name) ∷ rest) = if bytes_eq d dev then some name else name_of dev rest

unfoldable pub filter_fabric : List InitiatorAcl → String → List InitiatorAcl
filter_fabric rows fabric = remove_rows (λ r. not (str_eq r.fabric fabric)) rows

abbrev pub is_empty : {A : Type 0} → List A → Bool
is_empty [] = true
is_empty (x ∷ xs) = false

abbrev pub is_missing : {A : Type 0} → Option A → Bool
is_missing none = true
is_missing (some a) = false

-- What a failed step adds to the list of failures.
abbrev pub failed_with : FailedPart → Result Fault (Unit {0}) → List FailedPart
failed_with part (ok u) = []
failed_with part (err f) = part ∷ []

pub data Part : Type 0 where
  rebuild_failed fc_ensure_failed : Fault → Part
  acl_intent_unread : Fault → Part
  no_fabric firmware_warning : Part
  fc_detail : Detail → Part

-- A Result of Ensure.
pub record Ensured : Type 0 where
  pub is_ok : Bool
  pub parts : List Part

module _ (env : Env) (plant : Plant env) where
  open env use {World}

  abbrev pub Step : Type 0
  Step = Exec (Machine env) Fault (Unit {0})

  unfoldable pub create_luns : List ℕ → ℕ → List Binding → Step
  create_luns wwn lun [] = pure tt
  create_luns wwn lun (b ∷ bs) =
      tc env plant (create_lun wwn b.name lun) >> create_luns wwn (lun + 1) bs

  unfoldable pub create_fc_target : List ℕ → List Binding → Step
  unfolding create_luns
  create_fc_target wwn want = do
    tc env plant (create_target wwn)
    observe (tc env plant (set_attributes wwn))
    create_luns wwn 0 want

  unfoldable pub delete_fc_target : List ℕ → Step
  delete_fc_target wwn = do
    built ← look env (plant.target_exists (naa_to_colons wwn))
    if not built then pure tt else (do tc env plant (delete_target wwn); tc env plant save_config)

  abbrev pub given : {A : Type 0} → Result Fault A → Exec (Machine env) Fault A
  given (ok a) = pure a
  given (err f) = exit f

  unfoldable pub get_expected : List MhvtlLibrary → Exec (Machine env) Fault (List Binding)
  get_expected libs = do want ← look env (λ w. expected libs (plant.discover w)); given want

  -- The LUNs under the names of the backstores that are live on their devices; the others are made.
  abbrev pub named : Binding → Option (List ℕ) → Exec (Machine env) Fault Binding
  named b (some name) = pure (record b { name = name })
  named b none = do tc env plant (create_backstore b.name b.dev); pure b

  unfoldable pub reuse_backstores :
      List (List ℕ × List ℕ) → List Binding → Exec (Machine env) Fault (List Binding)
  unfolding name_of
  reuse_backstores live [] = pure []
  reuse_backstores live (b ∷ bs) =
      let rest = reuse_backstores live bs in
      (do b' ← named b (name_of b.dev live); bs' ← rest; pure (b' ∷ bs'))

  unfoldable pub ensure_port : List InitiatorAcl → List Binding → PortState → Step
  unfolding create_fc_target
  ensure_port rows want p = do
    built ← look env (plant.tpg_exists (naa_to_colons p.wwpn))
    if built then pure tt else create_fc_target p.wwpn want
    reconcile_acls env plant p.wwpn rows want

  unfoldable pub stamp_if_unbuilt : List MhvtlLibrary → Step
  stamp_if_unbuilt libs = do
    unbuilt ← look env (λ w. is_missing (plant.built_epoch w))
    if unbuilt then stamp_epoch env plant libs else pure tt

  unfoldable pub ensure_fc_additive : List MhvtlLibrary → List InitiatorAcl → Step
  unfolding ensure_port reuse_backstores get_expected stamp_if_unbuilt
  ensure_fc_additive libs rows = do
    want ← get_expected libs
    observe (tc env plant set_global)
    live ← look env plant.backstores
    want' ← reuse_backstores live want
    ports ← serving_ports env plant
    each env (ensure_port rows want') ports
    tc env plant save_config
    stamp_if_unbuilt libs

  unfoldable pub pause : Step
  pause m =
      let (done, w) = plant.wait m.server.world in
      ((if done then err cancelled else ok tt), move_world env w m)

  -- `n` attempts, with a pause after each that fails; then the last error.
  abbrev pub retry_after : Step → Result Fault (Unit {0}) → (Fault → Step) → Step
  retry_after wait (ok u) again = pure tt
  retry_after wait (err f) again = wait >> again f

  unfoldable pub clear_with_retries : ℕ → Fault → Step
  unfolding pause
  clear_with_retries zero f = exit f
  clear_with_retries (suc n) f =
      let again = clear_with_retries n in
      (do r ← observe (tc env plant clear_config); retry_after pause r again)

  unfoldable pub build_port : List InitiatorAcl → List Binding → PortState → Step
  unfolding create_fc_target
  build_port rows want p = do
    create_fc_target p.wwpn want
    reconcile_acls env plant p.wwpn rows want

  -- A port that fails is swept.
  abbrev pub swept :
      PortState → Result Fault (Unit {0}) → Exec (Machine env) Fault (List FailedPart)
  swept p (ok u) = pure []
  swept p (err f) = do observe (tc env plant (delete_target p.wwpn)); pure (port_failed p.wwpn ∷ [])

  unfoldable pub build_ports :
      List InitiatorAcl → List Binding → List PortState → Exec (Machine env) Fault (List FailedPart)
  unfolding build_port
  build_ports rows want [] = pure []
  build_ports rows want (p ∷ ps) =
      let rest = build_ports rows want ps in
      (do
        r ← observe (build_port rows want p)
        failed ← swept p r
        more ← rest
        pure (failed ++ more))

  abbrev pub rebuilt : List FailedPart → Step
  rebuilt [] = pure tt
  rebuilt (p ∷ ps) = exit (rebuilt_with (p ∷ ps))

  unfoldable pub rebuild_all : List MhvtlLibrary → Step
  unfolding filter_fabric get_expected clear_with_retries build_ports
  rebuild_all libs = do
    ports ← serving_ports env plant
    exit_if (is_empty ports) nothing_to_build
    want ← get_expected libs
    rows ← on_db env (list_acls env "")
    clear_with_retries 3 nothing_to_build
    observe (tc env plant set_global)
    each env (λ b. tc env plant (create_backstore b.name b.dev)) want
    failed ← build_ports (filter_fabric rows "fc") want ports
    saved ← observe (tc env plant save_config)
    stamp_epoch env plant libs
    rebuilt (failed ++ failed_with save_failed saved)

  -- What a repair that failed adds to the detail.
  abbrev pub parts_of : (Fault → Part) → Result Fault (Unit {0}) → List Part
  parts_of part (ok u) = []
  parts_of part (err f) = part f ∷ []

  abbrev pub succeeded : Result Fault (Unit {0}) → Bool
  succeeded (ok u) = true
  succeeded (err f) = false

  unfoldable pub firmware_missing : World → Bool
  firmware_missing w =
      not (is_empty (plant.host_ports w))
      && not (
          plant.firmware_file "ql2400_fw.bin" w
          || plant.firmware_file "ql2500_fw.bin" w
          || plant.firmware_file "ql2700_fw.bin" w)

  unfoldable pub report : Bool → List Part → Verdict → Exec (Machine env) Fault Ensured
  unfolding firmware_missing
  report all_ok parts v = do
    missing ← look env firmware_missing
    pure (record {
      is_ok = all_ok && v.is_ok;
      parts = (parts ++ fc_detail v.detail ∷ []) ++ (if missing then firmware_warning ∷ [] else []);
    })

  -- A rebuild for a fault that only it mends, an additive repair for another; verified again.
  unfoldable pub mend :
      List MhvtlLibrary → List InitiatorAcl → Verdict → Exec (Machine env) Fault Ensured
  unfolding rebuild_all ensure_fc_additive report
  mend libs rows v =
      if not v.is_ok && v.hard
      then (do
        r ← observe (rebuild_all libs)
        v' ← verify_fc env plant libs rows
        report (succeeded r) (parts_of rebuild_failed r) v')
      else (if not v.is_ok
          then (do
            r ← observe (ensure_fc_additive libs rows)
            v' ← verify_fc env plant libs rows
            report true (parts_of fc_ensure_failed r) v')
          else report true [] v)

  unfoldable pub ensure_rows :
      List MhvtlLibrary → Result Fault (List InitiatorAcl) → Exec (Machine env) Fault Ensured
  unfolding mend filter_fabric
  ensure_rows libs (err f) = pure (record { is_ok = false; parts = acl_intent_unread f ∷ [] })
  ensure_rows libs (ok rows) =
      let fc = filter_fabric rows "fc" in (do v ← verify_fc env plant libs fc; mend libs fc v)

  unfoldable pub ensure : List MhvtlLibrary → Exec (Machine env) Fault Ensured
  unfolding ensure_rows
  ensure libs = do
    ports ← serving_ports env plant
    if is_empty ports
        then pure (record { is_ok = true; parts = no_fabric ∷ [] })
        else (do rows ← observe (on_db env (list_acls env "")); ensure_rows libs rows)

  unfoldable pub reconcile_port : List InitiatorAcl → List Binding → PortState → Step
  reconcile_port rows want p = do
    built ← look env (plant.tpg_exists (naa_to_colons p.wwpn))
    if built then reconcile_acls env plant p.wwpn rows want else pure tt

  unfoldable pub reconcile_access : List MhvtlLibrary → Step
  unfolding filter_fabric get_expected reconcile_port
  reconcile_access libs = do
    rows ← on_db env (list_acls env "")
    want ← get_expected libs
    observe (tc env plant set_global)
    ports ← serving_ports env plant
    each env (reconcile_port (filter_fabric rows "fc") want) ports
    tc env plant save_config

  unfoldable pub set_port_serving : List MhvtlLibrary → List ℕ → Bool → Step
  unfolding switched ensure_fc_additive delete_fc_target
  set_port_serving libs wwn serving = do
    dis ← disabled_ports env plant
    on_db env (set_setting env "fc.disabled_ports" (join_with b',' (switched wwn serving dis)))
    if not serving
        then delete_fc_target wwn
        else (do rows ← on_db env (list_acls env "fc"); ensure_fc_additive libs rows)
