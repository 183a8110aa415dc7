-- ===== src/Inventory/Changer/Free.antt =====
-- The slot that findFreeSlot of openvtld/internal/inventory/adopt.go chooses, against a plain description.
use open_vtl.Prelude.Text.{bytes_eq}
use open_vtl.Prelude.{
  ℕ, ◌≡◌, refl, ap, ◌∙◌, Bool, true, false, not, ◌&&◌, ◌||◌, Option, none, some, List, [], ◌∷◌, ltb,
  ◌==◌, if◌then◌else◌, find, Bool-cases, inl, inr, arith,
}
use open_vtl.Exec.{Result, ok, err}
use open_vtl.Inventory.Changer.{
  MtxDrive, MtxSlot, MtxStatus, NoSlot, label_loaded, label_present, no_free_slot, holds_num,
  keeps_home, reserve_homes, scan_slots, found_slot, find_free_slot,
}

abbrev pub drive_holds : List ℕ → List MtxDrive → Bool
drive_holds label [] = false
drive_holds label (d ∷ ds) = bytes_eq d.label label || drive_holds label ds

abbrev pub slot_holds : List ℕ → List MtxSlot → Bool
slot_holds label [] = false
slot_holds label (s ∷ ss) = bytes_eq s.label label || slot_holds label ss

-- A loaded cartridge comes back to this slot.
abbrev pub is_home : List MtxDrive → ℕ → Bool
is_home [] n = false
is_home (d ∷ ds) n =
    ((not (bytes_eq d.label []) && ltb 0 d.source) && d.source == n) || is_home ds n

-- A storage slot that is empty and is nobody's home.
abbrev pub is_open : List MtxDrive → MtxSlot → Bool
is_open ds s = not s.ie && bytes_eq s.label [] && not (is_home ds s.num) && ltb 0 s.num

abbrev pub number_of : Option MtxSlot → Result NoSlot ℕ
number_of none = err no_free_slot
number_of (some s) = ok s.num

abbrev pub expected_slot : List ℕ → List MtxDrive → List MtxSlot → Result NoSlot ℕ
unfolding find
expected_slot label ds ss =
    if drive_holds label ds
    then err label_loaded
    else (if slot_holds label ss then err label_present else number_of (find (is_open ds) ss))

abbrev homes : List ℕ → List MtxDrive → List ℕ
homes reserved [] = reserved
homes reserved (d ∷ ds) = homes (if keeps_home d then d.source ∷ reserved else reserved) ds

reserve_homes_lem :
    (label reserved : List ℕ) (ds : List MtxDrive)
    → reserve_homes label reserved ds
      ≡ (if drive_holds label ds then err label_loaded else ok (homes reserved ds))
unfolding reserve_homes
reserve_homes_lem label reserved [] = refl
reserve_homes_lem label reserved (d ∷ ds) =
    let r = reserve_homes_lem label (if keeps_home d then d.source ∷ reserved else reserved) ds in
    elim (Bool-cases (bytes_eq d.label label)) [ inl same ↦ rw same refl | inr other ↦ rw other r ]

or_first : (a b c : Bool) → (a || b) || c ≡ b || (a || c)
or_first true true c = refl
or_first true false c = refl
or_first false b c = refl

kept_home :
    (n : ℕ) (d : MtxDrive) (reserved : List ℕ) (k h : Bool)
    → holds_num (if k then d.source ∷ reserved else reserved) n || h
      ≡ holds_num reserved n || ((k && d.source == n) || h)
kept_home n d reserved true h = or_first (d.source == n) (holds_num reserved n) h
kept_home n d reserved false h = refl

or_false : (b : Bool) → b ≡ b || false
or_false true = refl
or_false false = refl

holds_num-homes :
    (n : ℕ) (reserved : List ℕ) (ds : List MtxDrive)
    → holds_num (homes reserved ds) n ≡ holds_num reserved n || is_home ds n
holds_num-homes n reserved [] = or_false _
holds_num-homes n reserved (d ∷ ds) =
    holds_num-homes n (if keeps_home d then d.source ∷ reserved else reserved) ds
    ∙ kept_home n d reserved (keeps_home d) (is_home ds n)

-- The number of the first slot that is open when `kept` says which are reserved, or 0.
abbrev first_open : (ℕ → Bool) → List MtxSlot → ℕ
first_open kept [] = 0
first_open kept (s ∷ ss) =
    if not s.ie && bytes_eq s.label [] && not (kept s.num) && ltb 0 s.num
    then s.num
    else first_open kept ss

taken_on :
    (free num : ℕ) (a b c : Bool) (rest : ℕ)
    → (if (if a && b && c && free == 0 then num else free) == 0
        then rest
        else (if a && b && c && free == 0 then num else free))
      ≡ (if free == 0 then (if a && b && c && ltb 0 num then num else rest) else free)
taken_on free num true true true rest = ground arith
taken_on free num true true false rest = refl
taken_on free num true false c rest = refl
taken_on free num false b c rest = refl

zero_or : (free : ℕ) → free ≡ (if free == 0 then 0 else free)
zero_or free = ground arith

scan_slots_lem :
    (label reserved : List ℕ) (ss : List MtxSlot) (free : ℕ)
    → scan_slots label reserved free ss ≡ (
        if slot_holds label ss
        then err label_present
        else ok (if free == 0 then first_open (holds_num reserved) ss else free))
unfolding scan_slots
scan_slots_lem label reserved [] free = ap ok (zero_or free)
scan_slots_lem label reserved (s ∷ ss) free = elim (Bool-cases (bytes_eq s.label label)) [
  | inl same ↦ rw same refl
  | inr other ↦ rw other (
      scan_slots_lem label reserved ss (
        if not s.ie && bytes_eq s.label [] && not (holds_num reserved s.num) && free == 0
        then s.num
        else free)
      ∙ ap (λ f. if slot_holds label ss then err label_present else ok f)
          (taken_on free s.num (not s.ie) (bytes_eq s.label []) (not (holds_num reserved s.num))
            (first_open (holds_num reserved) ss)))
]

positive : (n : ℕ) → ltb 0 n ≡ true → (n == 0) ≡ false
positive n h = ground arith

found_or :
    (s : MtxSlot) (a b c : Bool) (rest : ℕ) (o : Option MtxSlot)
    → found_slot (ok rest) ≡ number_of o
    → found_slot (ok (if a && b && c && ltb 0 s.num then s.num else rest))
      ≡ number_of (if a && b && c && ltb 0 s.num then some s else o)
found_or s true true true rest o h = elim (Bool-cases (ltb 0 s.num)) [
  | inl above ↦ rw above (rw (positive s.num above) refl)
  | inr zero_num ↦ rw zero_num h
]
found_or s true true false rest o h = h
found_or s true false c rest o h = h
found_or s false b c rest o h = h

found_slot-first_open :
    (ds : List MtxDrive) (ss : List MtxSlot)
    → found_slot (ok (first_open (is_home ds) ss)) ≡ number_of (find (is_open ds) ss)
unfolding find
found_slot-first_open ds [] = refl
found_slot-first_open ds (s ∷ ss) =
    found_or s (not s.ie) (bytes_eq s.label []) (not (is_home ds s.num)) _ _
      (found_slot-first_open ds ss)

found_at_last :
    (label : List ℕ) (ds : List MtxDrive) (ss : List MtxSlot)
    → found_slot (scan_slots label (homes [] ds) 0 ss)
      ≡ (if slot_holds label ss then err label_present else number_of (find (is_open ds) ss))
found_at_last label ds ss = elim (Bool-cases (slot_holds label ss)) [
  | inl held ↦ rw (scan_slots_lem label (homes [] ds) ss 0) (rw held refl)
  | inr absent ↦ rw (scan_slots_lem label (homes [] ds) ss 0) (
      rw absent (
        ap (λ kept. found_slot (ok (first_open kept ss))) (λ i n. holds_num-homes n [] ds i)
        ∙ found_slot-first_open ds ss))
]

-- The slot for a new cartridge is the first of the storage slots, by mtx's order, that is empty, is not the
-- home of a loaded cartridge and has a number; it is refused if a drive or a slot holds the label, or if there
-- is no such slot.
pub find_free_slot_lem :
    (st : MtxStatus) (label : List ℕ)
    → find_free_slot (some st) label ≡ expected_slot label st.drives st.slots
unfolding find_free_slot expected_slot
find_free_slot_lem st label = elim (Bool-cases (drive_holds label st.drives)) [
  | inl held ↦ rw (reserve_homes_lem label [] st.drives) (rw held refl)
  | inr absent ↦
      rw (reserve_homes_lem label [] st.drives) (rw absent (found_at_last label st.drives st.slots))
]
