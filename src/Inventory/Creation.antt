-- ===== src/Inventory/Creation.antt =====
-- openvtld/internal/inventory/libcreate.go: the checks of a new library, and what is allocated to it.
pub mod Checked
pub mod Unique
use open_vtl.Prelude.Text.{ascii, bytes_eq, decimal}
use open_vtl.Prelude.Words.{holds_text}
use open_vtl.Prelude.{
  ℕ, zero, suc, ◌+◌, ◌*◌, ◌/◌, ◌%◌, max, String, str_eq, Bool, true, false, not, ◌&&◌, ◌||◌, Option,
  none, some, List, [], ◌∷◌, ◌++◌, ltb, ◌==◌, if◌then◌else◌, length,
}
use open_vtl.Exec.{Result, ok, err}
use open_vtl.Inventory.{MhvtlDrive, MhvtlLibrary}
use open_vtl.Inventory.Models.{
  DriveModel, LibraryVariant, LibraryModel, drive_model_by_product, library_variant_by_product,
}

pub record CreateLibrarySpec : Type 0 where
  pub product : List ℕ
  pub drive_product : List ℕ
  pub num_drives : ℕ
  pub home_dir : List ℕ
  pub num_slots : ℕ
  pub num_map : ℕ
  pub serial : List ℕ

pub data Refusal : Type 0 where
  no_home not_creatable drive_unfit conf_unreadable serial_taken : Refusal
  too_many_drives : ℕ → Refusal

-- The highest id of a library or of a drive's queue.
unfoldable pub max_queue : ℕ → List MhvtlDrive → ℕ
max_queue q [] = q
max_queue q (d ∷ ds) = max_queue (if ltb q d.queue_id then d.queue_id else q) ds

unfoldable pub max_id : ℕ → List MhvtlLibrary → ℕ
unfolding max_queue
max_id q [] = q
max_id q (l ∷ ls) = max_id (max_queue (if ltb q l.id then l.id else q) l.drives) ls

-- One more than the highest target, from -1: the next that is free.
unfoldable pub next_target_of : ℕ → List MhvtlDrive → ℕ
next_target_of t [] = t
next_target_of t (d ∷ ds) = next_target_of (if ltb d.target t then t else d.target + 1) ds

unfoldable pub next_target : ℕ → List MhvtlLibrary → ℕ
unfolding next_target_of
next_target t [] = t
next_target t (l ∷ ls) =
    next_target (next_target_of (if ltb l.target t then t else l.target + 1) l.drives) ls

unfoldable pub next_library_id : List MhvtlLibrary → ℕ
unfolding max_id
next_library_id libs = (max_id 0 libs / 10 + 1) * 10

abbrev pub zeroes : ℕ → ℕ → List ℕ
zeroes zero k = []
zeroes (suc w) zero = b'0' ∷ zeroes w zero
zeroes (suc w) (suc k) = zeroes w k

-- %0wd
unfoldable pub padded : ℕ → ℕ → List ℕ
unfolding decimal
padded width n = zeroes width (length (decimal n)) ++ decimal n

-- The random numbers below a million, in the order in which they come.
abbrev pub serial_of : List ℕ → ℕ → List ℕ
serial_of prefix n = prefix ++ padded 6 n

-- The first of 10,000 serials that is not taken; then the next, taken or not. What is left comes along.
unfoldable pub random_serial : ℕ → List ℕ → List (List ℕ) → (ℕ → ℕ) → ℕ → List ℕ × ℕ
unfolding padded
random_serial zero prefix taken rand at = (serial_of prefix (rand at % 1000000), at + 1)
random_serial (suc tries) prefix taken rand at =
    let s = serial_of prefix (rand at % 1000000) in
    let rest = random_serial tries prefix taken rand (at + 1) in
    if not (holds_text taken s) then (s, at + 1) else rest

unfoldable pub library_serials : List MhvtlLibrary → List (List ℕ)
library_serials [] = []
library_serials (l ∷ ls) = l.serial ∷ library_serials ls

serials_in : List MhvtlDrive → List (List ℕ)
serials_in [] = []
serials_in (d ∷ ds) = d.serial ∷ serials_in ds

unfoldable pub all_drive_serials : List MhvtlLibrary → List (List ℕ)
unfolding serials_in
all_drive_serials [] = []
all_drive_serials (l ∷ ls) = serials_in l.drives ++ all_drive_serials ls

-- Defaults of a spec.
unfoldable pub with_defaults : CreateLibrarySpec → CreateLibrarySpec
with_defaults spec = record spec {
  num_slots = (if spec.num_slots == 0 then 100 else spec.num_slots);
  num_map = (if spec.num_map == 0 then 4 else spec.num_map);
}

abbrev pub fits : LibraryVariant → Option DriveModel → Option DriveModel
fits v none = none
fits v (some dm) = if str_eq dm.family v.family then some dm else none

abbrev pub checked_drive :
    LibraryModel → Option DriveModel → Result Refusal (LibraryModel × DriveModel)
checked_drive m none = err drive_unfit
checked_drive m (some dm) = ok (m, dm)

abbrev pub checked_variant :
    CreateLibrarySpec
    → Option (LibraryModel × LibraryVariant)
    → Result Refusal (LibraryModel × DriveModel)
checked_variant spec none = err not_creatable
checked_variant spec (some (m, v)) =
    if not m.creatable || not v.creatable
    then err not_creatable
    else (if ltb spec.num_drives 1 || ltb m.max_drives spec.num_drives
        then err (too_many_drives m.max_drives)
        else checked_drive m (fits v (drive_model_by_product spec.drive_product)))

-- The models of the library and of its drives, unless the spec is refused.
unfoldable pub check_spec : Bool → CreateLibrarySpec → Result Refusal (LibraryModel × DriveModel)
check_spec home_exists spec =
    if not home_exists
    then err no_home
    else checked_variant spec (library_variant_by_product spec.product)

-- What one new drive is: its queue id, target and slot follow the library's.
unfoldable pub new_drives : ℕ → ℕ → ℕ → ℕ → List ℕ → List (List ℕ) → (ℕ → ℕ) → ℕ → List MhvtlDrive
unfolding random_serial
new_drives zero i lib target product taken rand at = []
new_drives (suc n) i lib target product taken rand at =
    let s = random_serial 10000 (ascii "OVTD") taken rand at in
    record {
      queue_id = lib + 1 + i;
      target = target + 1 + i;
      library_id = lib;
      slot = i + 1;
      serial = s.0;
      product = product;
    }
    ∷ new_drives n (i + 1) lib target product (taken ++ s.0 ∷ []) rand s.1

abbrev pub chosen_serial :
    CreateLibrarySpec → List (List ℕ) → (ℕ → ℕ) → ℕ → Result Refusal (List ℕ × ℕ)
chosen_serial spec taken rand at =
    if bytes_eq spec.serial []
    then ok (random_serial 10000 (ascii "OVTL") taken rand at)
    else (if holds_text taken spec.serial then err serial_taken else ok (spec.serial, at))

-- The library with its drives, given its serial and what is left of the random numbers.
abbrev pub declared : CreateLibrarySpec → List MhvtlLibrary → (ℕ → ℕ) → List ℕ → ℕ → MhvtlLibrary
declared spec libs rand serial at =
    let id = next_library_id libs in
    let target = next_target 0 libs in
    record {
      id = id;
      target = target;
      serial = serial;
      product = spec.product;
      home_dir = spec.home_dir;
      drives =
          new_drives spec.num_drives 0 id target spec.drive_product (all_drive_serials libs) rand
            at;
      barcodes = [];
    }

abbrev pub with_serial :
    CreateLibrarySpec
    → List MhvtlLibrary
    → (ℕ → ℕ)
    → Result Refusal (List ℕ × ℕ)
    → Result Refusal MhvtlLibrary
with_serial spec libs rand (err r) = err r
with_serial spec libs rand (ok (serial, at)) = ok (declared spec libs rand serial at)

-- What CreateLibrary declares beside the libraries of device.conf.
unfoldable pub allocate :
    CreateLibrarySpec → List MhvtlLibrary → (ℕ → ℕ) → Result Refusal MhvtlLibrary
unfolding next_library_id next_target new_drives random_serial library_serials all_drive_serials
allocate spec libs rand =
    with_serial spec libs rand (chosen_serial spec (library_serials libs) rand 0)

abbrev pub checked_then :
    Result Refusal (LibraryModel × DriveModel)
    → Result Refusal MhvtlLibrary
    → Result Refusal (LibraryModel × DriveModel × MhvtlLibrary)
checked_then (err r) l = err r
checked_then (ok (m, dm)) (err r) = err r
checked_then (ok (m, dm)) (ok l) = ok (m, dm, l)

-- The checks before the files are written: the home directory, the models, device.conf, the serial.
unfoldable pub create_library :
    Bool
    → Option (List MhvtlLibrary)
    → CreateLibrarySpec
    → (ℕ → ℕ)
    → Result Refusal (LibraryModel × DriveModel × MhvtlLibrary)
unfolding allocate check_spec with_defaults
create_library home_exists none spec rand =
    checked_then (check_spec home_exists spec) (err conf_unreadable)
create_library home_exists (some libs) spec rand =
    let spec' = with_defaults spec in
    checked_then (check_spec home_exists spec') (allocate spec' libs rand)
