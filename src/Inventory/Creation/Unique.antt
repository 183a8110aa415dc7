-- ===== src/Inventory/Creation/Unique.antt =====
-- What CreateLibrary of openvtld/internal/inventory/libcreate.go allocates is free: queue ids and targets.
use open_vtl.Prelude.Distinct.{
  Ascends, Ascends-weaken, Distinct, Under, Under-weaken, Under-append, Distinct-append,
}
use open_vtl.Prelude.Text.{ascii}
use open_vtl.Prelude.{
  ℕ, zero, suc, ◌+◌, ◌*◌, ◌/◌, ◌%◌, ◌≤◌, ◌≡◌, refl, sym, subst, Bool, List, [], ◌∷◌, ◌++◌,
  append-nil, append_assoc, arith, ltb, if◌then◌else◌, length, some,
}
use open_vtl.Exec.{Result, ok, err}
use open_vtl.Inventory.{MhvtlDrive, MhvtlLibrary}
use open_vtl.Inventory.Models.{DriveModel, LibraryModel}
use open_vtl.Inventory.Creation.{
  CreateLibrarySpec, Refusal, max_queue, max_id, next_target_of, next_target, next_library_id,
  new_drives, random_serial, all_drive_serials, with_serial, checked_then, with_defaults,
  create_library, checked_then, with_defaults, create_library, declared, allocate,
}
use open_vtl.Inventory.Creation.Checked.{Fits, check_spec-Fits}

abbrev pub queues : List MhvtlDrive → List ℕ
queues [] = []
queues (d ∷ ds) = d.queue_id ∷ queues ds

-- The ids of the daemons: of libraries and of drives.
abbrev pub all_queues : List MhvtlLibrary → List ℕ
all_queues [] = []
all_queues (l ∷ ls) = (l.id ∷ queues l.drives) ++ all_queues ls

abbrev pub targets : List MhvtlDrive → List ℕ
targets [] = []
targets (d ∷ ds) = d.target ∷ targets ds

-- The SCSI targets on channel 0.
abbrev pub all_targets : List MhvtlLibrary → List ℕ
all_targets [] = []
all_targets (l ∷ ls) = (l.target ∷ targets l.drives) ++ all_targets ls

all_queues_last :
    (ls : List MhvtlLibrary) (l : MhvtlLibrary)
    → all_queues (ls ++ l ∷ []) ≡ all_queues ls ++ l.id ∷ queues l.drives
all_queues_last [] l = append-nil _
all_queues_last (k ∷ ls) l =
    rw (all_queues_last ls l) (sym (append_assoc (k.id ∷ queues k.drives) (all_queues ls) _))

all_targets_last :
    (ls : List MhvtlLibrary) (l : MhvtlLibrary)
    → all_targets (ls ++ l ∷ []) ≡ all_targets ls ++ l.target ∷ targets l.drives
all_targets_last [] l = append-nil _
all_targets_last (k ∷ ls) l =
    rw (all_targets_last ls l) (sym (append_assoc (k.target ∷ targets k.drives) (all_targets ls) _))

max_queue-Under :
    (q : ℕ) (ds : List MhvtlDrive) → (q ≤ max_queue q ds) × Under (max_queue q ds + 1) (queues ds)
unfolding max_queue
max_queue-Under q [] = (omega arith, tt)
max_queue-Under q (d ∷ ds) =
    let r = max_queue-Under (if ltb q d.queue_id then d.queue_id else q) ds in
    (ground (arith, r.0), (ground (arith, r.0), r.1))

max_id-Under :
    (q : ℕ) (ls : List MhvtlLibrary) → (q ≤ max_id q ls) × Under (max_id q ls + 1) (all_queues ls)
unfolding max_id
max_id-Under q [] = (omega arith, tt)
max_id-Under q (l ∷ ls) =
    let q' : ℕ = if ltb q l.id then l.id else q in
    let r = max_queue-Under q' l.drives in
    let s = max_id-Under (max_queue q' l.drives) ls in
    (
      ground (arith, r.0, s.0),
      (
        ground (arith, r.0, s.0),
        Under-append _ (queues l.drives) (all_queues ls)
            (Under-weaken _ _ (queues l.drives) (omega (arith, s.0)) r.1) s.1,
      ),
    )

next_target_of-Under :
    (t : ℕ) (ds : List MhvtlDrive)
    → (t ≤ next_target_of t ds) × Under (next_target_of t ds) (targets ds)
unfolding next_target_of
next_target_of-Under t [] = (omega arith, tt)
next_target_of-Under t (d ∷ ds) =
    let r = next_target_of-Under (if ltb d.target t then t else d.target + 1) ds in
    (ground (arith, r.0), (ground (arith, r.0), r.1))

next_target-Under :
    (t : ℕ) (ls : List MhvtlLibrary)
    → (t ≤ next_target t ls) × Under (next_target t ls) (all_targets ls)
unfolding next_target
next_target-Under t [] = (omega arith, tt)
next_target-Under t (l ∷ ls) =
    let t' : ℕ = if ltb l.target t then t else l.target + 1 in
    let r = next_target_of-Under t' l.drives in
    let s = next_target-Under (next_target_of t' l.drives) ls in
    (
      ground (arith, r.0, s.0),
      (
        ground (arith, r.0, s.0),
        Under-append _ (targets l.drives) (all_targets ls)
            (Under-weaken _ _ (targets l.drives) s.0 r.1) s.1,
      ),
    )

-- A drive of the new library: attached to it, in the slot of its place.
abbrev pub InPlace : ℕ → ℕ → List MhvtlDrive → Type 0
InPlace lib i [] = Unit {0}
InPlace lib i (d ∷ ds) = (d.library_id ≡ lib) × (d.slot ≡ i + 1) × InPlace lib (i + 1) ds

new_drives_lem :
    (n i lib target : ℕ) (product : List ℕ) (taken : List (List ℕ)) (rand : ℕ → ℕ) (at : ℕ)
    → let ds = new_drives n i lib target product taken rand at in
      Ascends (lib + 1 + i) (queues ds)
      × Ascends (target + 1 + i) (targets ds)
      × (length ds ≡ n)
      × InPlace lib i ds
unfolding new_drives
new_drives_lem zero i lib target product taken rand at = (tt, tt, refl, tt)
new_drives_lem (suc n) i lib target product taken rand at =
    let s = random_serial 10000 (ascii "OVTD") taken rand at in
    let r = new_drives_lem n (i + 1) lib target product (taken ++ s.0 ∷ []) rand s.1 in
    let ds = new_drives n (i + 1) lib target product (taken ++ s.0 ∷ []) rand s.1 in
    (
      (omega arith, subst (λ k. Ascends k (queues ds)) (omega arith) r.0),
      (omega arith, subst (λ k. Ascends k (targets ds)) (omega arith) r.1),
      omega (arith, r.2),
      (refl, refl, r.3),
    )

-- What the rest of the inventory expects of a new library among the old ones.
abbrev pub Fresh : CreateLibrarySpec → List MhvtlLibrary → MhvtlLibrary → Type 0
Fresh spec libs new =
    Distinct (all_queues (libs ++ new ∷ []))
    × Distinct (all_targets (libs ++ new ∷ []))
    × InPlace new.id 0 new.drives
    × (length new.drives ≡ spec.num_drives)
    × (new.id % 10 ≡ 0)

max_id_below : (q : ℕ) → q + 1 ≤ (q / 10 + 1) * 10
max_id_below q = omega arith

declared-Fresh :
    (spec : CreateLibrarySpec) (libs : List MhvtlLibrary) (rand : ℕ → ℕ) (serial : List ℕ) (at : ℕ)
    → Distinct (all_queues libs)
    → Distinct (all_targets libs)
    → Fresh spec libs (declared spec libs rand serial at)
unfolding next_library_id
declared-Fresh spec libs rand serial at dq dt =
    let id : ℕ = (max_id 0 libs / 10 + 1) * 10 in
    let t = next_target 0 libs in
    let new = declared spec libs rand serial at in
    let r =
      new_drives_lem spec.num_drives 0 id t spec.drive_product (all_drive_serials libs) rand at in
    (
      subst Distinct (sym (all_queues_last libs new)) (
          Distinct-append (max_id 0 libs + 1) (all_queues libs) _ (max_id-Under 0 libs).1 dq
            (max_id_below _, Ascends-weaken _ _ _ (omega arith) r.0)),
      subst Distinct (sym (all_targets_last libs new)) (
          Distinct-append t (all_targets libs) _ (next_target-Under 0 libs).1 dt
            (omega arith, Ascends-weaken _ _ _ (omega arith) r.1)),
      r.3,
      r.2,
      omega arith,
    )

from_serial :
    (spec : CreateLibrarySpec) (libs : List MhvtlLibrary) (rand : ℕ → ℕ)
    (s : Result Refusal (List ℕ × ℕ)) (new : MhvtlLibrary)
    → with_serial spec libs rand s ≡ ok new
    → Distinct (all_queues libs)
    → Distinct (all_targets libs)
    → Fresh spec libs new
from_serial spec libs rand (err r) new e dq dt = absurd cc
from_serial spec libs rand (ok (serial, at)) new e dq dt =
    subst (Fresh spec libs) (cc) (declared-Fresh spec libs rand serial at dq dt)

both_checked :
    (c : Result Refusal (LibraryModel × DriveModel)) (r : Result Refusal MhvtlLibrary)
    (m : LibraryModel) (dm : DriveModel) (new : MhvtlLibrary)
    → checked_then c r ≡ ok (m, dm, new)
    → (c ≡ ok (m, dm)) × (r ≡ ok new)
both_checked (err x) r m dm new e = absurd cc
both_checked (ok (k, d)) (err x) m dm new e = absurd cc
both_checked (ok (k, d)) (ok l) m dm new e = (cc, cc)

-- If no queue id and no target of the libraries in device.conf is used twice and the creation is not
-- refused, then none is used twice with the new library either; its id is a multiple of ten, its drives are
-- as many as the spec (with its defaults) says, attached to it in slots 1, 2, …; and the spec is one of the
-- catalogue, within the limits of the model.
pub create_library_lem :
    (there : Bool) (libs : List MhvtlLibrary) (spec : CreateLibrarySpec) (rand : ℕ → ℕ)
    (m : LibraryModel) (dm : DriveModel) (new : MhvtlLibrary)
    → create_library there (some libs) spec rand ≡ ok (m, dm, new)
    → Distinct (all_queues libs)
    → Distinct (all_targets libs)
    → Fresh (with_defaults spec) libs new × Fits (with_defaults spec) m dm
unfolding create_library allocate
create_library_lem there libs spec rand m dm new e dq dt =
    let h = both_checked _ _ m dm new e in
    (
      from_serial (with_defaults spec) libs rand _ new h.1 dq dt,
      (check_spec-Fits there (with_defaults spec) m dm h.0).1,
    )
