-- ===== src/Inventory/Changer.antt =====
-- openvtld/internal/inventory: what mtx says of a changer (scsi.go), and the free slot of a new cartridge
-- (adopt.go).
pub mod Free
use open_vtl.Prelude.Text.{bytes_eq}
use open_vtl.Prelude.{
  ℕ, Bool, true, false, not, ◌&&◌, ◌||◌, Option, none, some, List, [], ◌∷◌, ltb, ◌==◌,
  if◌then◌else◌,
}
use open_vtl.Exec.{Result, ok, err}

pub record MtxDrive : Type 0 where
  pub num : ℕ
  pub label : List ℕ
  -- the home slot of the loaded cartridge, 0 if it is unknown
  pub source : ℕ

pub record MtxSlot : Type 0 where
  pub num : ℕ
  pub ie : Bool
  pub label : List ℕ

pub record MtxStatus : Type 0 where
  pub drives : List MtxDrive
  pub slots : List MtxSlot

pub data NoSlot : Type 0 where
  no_status label_loaded label_present no_free_slot : NoSlot

-- A slot's number as a key of a `map[int]bool`.
abbrev pub holds_num : List ℕ → ℕ → Bool
holds_num [] n = false
holds_num (m ∷ ms) n = m == n || holds_num ms n

-- Whether the drive keeps a slot: it is the home of the cartridge that is loaded.
abbrev pub keeps_home : MtxDrive → Bool
keeps_home d = not (bytes_eq d.label []) && ltb 0 d.source

unfoldable pub reserve_homes : List ℕ → List ℕ → List MtxDrive → Result NoSlot (List ℕ)
reserve_homes label reserved [] = ok reserved
reserve_homes label reserved (d ∷ ds) =
    let rest = reserve_homes label (if keeps_home d then d.source ∷ reserved else reserved) ds in
    if bytes_eq d.label label then err label_loaded else rest

-- The first slot that is free, or 0.
unfoldable pub scan_slots : List ℕ → List ℕ → ℕ → List MtxSlot → Result NoSlot ℕ
scan_slots label reserved free [] = ok free
scan_slots label reserved free (s ∷ ss) =
    let is_free = not s.ie && bytes_eq s.label [] && not (holds_num reserved s.num) && free == 0 in
    let rest = scan_slots label reserved (if is_free then s.num else free) ss in
    if bytes_eq s.label label then err label_present else rest

abbrev pub found_slot : Result NoSlot ℕ → Result NoSlot ℕ
found_slot (err e) = err e
found_slot (ok free) = if free == 0 then err no_free_slot else ok free

abbrev pub with_reserved : List ℕ → List MtxSlot → Result NoSlot (List ℕ) → Result NoSlot ℕ
unfolding scan_slots
with_reserved label slots (err e) = err e
with_reserved label slots (ok reserved) = found_slot (scan_slots label reserved 0 slots)

-- The slot for a cartridge, given what the changer answers.
unfoldable pub find_free_slot : Option MtxStatus → List ℕ → Result NoSlot ℕ
unfolding reserve_homes with_reserved
find_free_slot none label = err no_status
find_free_slot (some st) label = with_reserved label st.slots (reserve_homes label [] st.drives)
