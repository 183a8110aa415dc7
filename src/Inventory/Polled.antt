-- ===== src/Inventory/Polled.antt =====
-- openvtld/internal/inventory/engine.go: applyMtx, which brings the snapshot of a library up to date with the
-- status of its changer and says what moved.
pub mod Stable
use open_vtl.Prelude.Text.{ascii, bytes_eq, decimal}
use open_vtl.Prelude.{
  ℕ, zero, suc, ◌+◌, Bool, true, false, not, ◌&&◌, Option, none, some, List, [], ◌∷◌, ◌++◌,
  if◌then◌else◌, count_rows,
}
use open_vtl.Inventory.Snapshot.{Library, Drive, Slot, Cart, LibrarySnapshot}
use open_vtl.Inventory.Changer.{MtxDrive, MtxSlot, MtxStatus}

-- moveEvt: the subject, and what the detail says.
pub data MoveEvent : Type 0 where
  drive_loaded drive_unloaded : List ℕ → ℕ → MoveEvent
  cart_moved : List ℕ → List ℕ → List ℕ → MoveEvent

abbrev pub drive_at : ℕ → List Drive → Option Drive
drive_at n [] = none
drive_at zero (d ∷ ds) = some d
drive_at (suc n) (d ∷ ds) = drive_at n ds

abbrev pub set_drive : ℕ → (Drive → Drive) → List Drive → List Drive
set_drive n f [] = []
set_drive zero f (d ∷ ds) = f d ∷ ds
set_drive (suc n) f (d ∷ ds) = d ∷ set_drive n f ds

abbrev pub load_events : MtxDrive → Option Drive → List MoveEvent
load_events m none = []
load_events m (some d) =
    if bytes_eq d.loaded m.label
    then []
    else (if not (bytes_eq m.label [])
        then drive_loaded m.label m.num ∷ []
        else (if not (bytes_eq d.loaded []) then drive_unloaded d.loaded m.num ∷ [] else []))

abbrev pub mounted : MtxDrive → Drive → Drive
mounted m d = record d { loaded = m.label; source_slot = m.source }

unfoldable pub apply_drives : List MtxDrive → List Drive → List MoveEvent × List Drive
apply_drives [] ds = ([], ds)
apply_drives (m ∷ ms) ds =
    let r = apply_drives ms (set_drive m.num (mounted m) ds) in
    (load_events m (drive_at m.num ds) ++ r.0, r.1)

unfoldable pub slots_of : List MtxSlot → List Slot
slots_of [] = []
slots_of (s ∷ ss) =
    record { kind = (if s.ie then "ie" else "storage"); num = s.num; label = s.label } ∷ slots_of ss

abbrev pub slot_text : MtxSlot → List ℕ
slot_text s = (if s.ie then ascii "ie:" else ascii "storage:") ++ decimal s.num

-- The map from labels to locations, at one label: the last entry.
abbrev pub located_slot : List ℕ → Option (List ℕ) → List MtxSlot → Option (List ℕ)
unfolding decimal
located_slot label found [] = found
located_slot label found (s ∷ ss) =
    located_slot label
      (if not (bytes_eq s.label []) && bytes_eq s.label label then some (slot_text s) else found) ss

abbrev pub located_drive : List ℕ → ℕ → Option (List ℕ) → List Drive → Option (List ℕ)
unfolding decimal
located_drive label i found [] = found
located_drive label i found (d ∷ ds) =
    located_drive label (i + 1)
      (if not (bytes_eq d.loaded []) && bytes_eq d.loaded label
        then some (ascii "drive:" ++ decimal i)
        else found)
      ds

abbrev pub or_missing : Option (List ℕ) → List ℕ
or_missing none = ascii "missing"
or_missing (some l) = l

unfoldable pub new_location : List Drive → List MtxSlot → List ℕ → List ℕ
unfolding located_slot located_drive
new_location ds ss label = or_missing (located_drive label 0 (located_slot label none ss) ds)

-- oldLoc at one label: the last cartridge's location.
abbrev pub old_location : List ℕ → List ℕ → List Cart → List ℕ
old_location label found [] = found
old_location label found (c ∷ cs) =
    old_location label (if bytes_eq c.label label then c.location else found) cs

abbrev pub move_events : (List ℕ → List ℕ) → List Cart → List Cart → List MoveEvent
move_events loc all [] = []
move_events loc all (c ∷ cs) =
    let old = old_location c.label [] all in
    let rest = move_events loc all cs in
    if not (bytes_eq old (loc c.label)) && not (bytes_eq old [])
    then cart_moved c.label old (loc c.label) ∷ rest
    else rest

abbrev pub relocate : (List ℕ → List ℕ) → List Cart → List Cart
relocate loc [] = []
relocate loc (c ∷ cs) = record c { location = loc c.label } ∷ relocate loc cs

abbrev pub renumber : MtxStatus → Library → Library
unfolding count_rows
renumber st l = record l {
  num_slots = count_rows (λ (s : MtxSlot). not s.ie) st.slots;
  num_ie = count_rows (λ (s : MtxSlot). s.ie) st.slots;
}

-- The events in order, and the library.
unfoldable pub apply_mtx : MtxStatus → LibrarySnapshot → List MoveEvent × LibrarySnapshot
unfolding apply_drives slots_of new_location renumber
apply_mtx st lib =
    let r = apply_drives st.drives lib.drives in
    let loc = new_location r.1 st.slots in
    (
      r.0 ++ move_events loc lib.carts lib.carts,
      record {
        library = renumber st lib.library;
        drives = r.1;
        slots = slots_of st.slots;
        carts = relocate loc lib.carts;
      },
    )
