-- ===== src/Inventory/Deletion/Scan.antt =====
-- The element scan of DeleteCart in openvtld/internal/inventory/delete.go.
use open_vtl.Prelude.Text.{bytes_eq, bytes_eq_sound}
use open_vtl.Prelude.Words.{bytes_eq_refl}
use open_vtl.Prelude.{
  ◌≢◌, ℕ, ◌≡◌, refl, sym, ap, ◌∙◌, subst, Bool, true, false, not, ◌&&◌, ◌||◌, some, List, [], ◌∷◌,
  ◌==◌, if◌then◌else◌, Bool-cases, ◌⊎◌, inl, inr, arith,
}
use open_vtl.Exec.{Result, ok, err}
use open_vtl.Inventory.Changer.{MtxDrive, MtxSlot, MtxStatus}
use open_vtl.Inventory.Deletion.{
  DeleteFault, not_found, no_free_ie, Seen, Staging, in_map, from_slot, loaded_in, noted_as, noted,
  is_foreign, scan_map, staged, find_staging,
}

-- An I/E element holds the label.
abbrev pub in_ie_of : List ℕ → List MtxSlot → Bool
in_ie_of label [] = false
in_ie_of label (s ∷ ss) = (bytes_eq s.label label && s.ie) || in_ie_of label ss

-- The storage slot of the number holds the label.
abbrev pub held_at : List ℕ → ℕ → List MtxSlot → Bool
held_at label n [] = false
held_at label n (s ∷ ss) = (bytes_eq s.label label && not s.ie && s.num == n) || held_at label n ss

-- An I/E element of the number, without the label.
abbrev pub other_ie_at : List ℕ → ℕ → List MtxSlot → Bool
other_ie_at label n [] = false
other_ie_at label n (s ∷ ss) =
    (not (bytes_eq s.label label) && s.ie && s.num == n) || other_ie_at label n ss

-- No I/E element holds another label.
abbrev pub NoForeign : List ℕ → List MtxSlot → Type 0
NoForeign label [] = Unit {0}
NoForeign label (s ∷ ss) = (s.ie ≡ true → (s.label ≡ label) ⊎ (s.label ≡ [])) × NoForeign label ss

-- No drive holds the label.
abbrev pub NoneLoaded : List ℕ → List MtxDrive → Type 0
NoneLoaded label [] = Unit {0}
NoneLoaded label (d ∷ ds) = (d.label ≢ label) × NoneLoaded label ds

abbrev pub Located : List ℕ → List MtxSlot → Staging → Type 0
Located label ss in_map = in_ie_of label ss ≡ true
Located label ss (from_slot src ie) =
    (in_ie_of label ss ≡ false) × (held_at label src ss ≡ true) × (other_ie_at label ie ss ≡ true)

record Scanned (label : List ℕ) (f g : Seen) (ss : List MtxSlot) : Type 0 where
  alone : NoForeign label ss
  ie_seen : g.in_ie ≡ f.in_ie || in_ie_of label ss
  src_seen : (g.src_slot ≡ f.src_slot) ⊎ (held_at label g.src_slot ss ≡ true)
  free_seen : (g.free_ie ≡ f.free_ie) ⊎ (other_ie_at label g.free_ie ss ≡ true)

or_right : (a b : Bool) → b ≡ true → a || b ≡ true
or_right true b e = refl
or_right false b e = e

or_left : (a b : Bool) → a ≡ true → a || b ≡ true
or_left true b e = refl
or_left false b e = absurd cc

same_num : (n m : ℕ) → m ≡ n → (n == m) ≡ true
same_num n m e = ground (arith, e)

noted_ie :
    (b i : Bool) (n : ℕ) (f : Seen) (rest : Bool)
    → (noted_as b i n f).in_ie || rest ≡ f.in_ie || ((b && i) || rest)
noted_ie true true n f rest = sym (or_right f.in_ie true refl)
noted_ie true false n f rest = refl
noted_ie false true n f rest = refl
noted_ie false false n f rest = refl

noted_src :
    (b i : Bool) (n m : ℕ) (f : Seen) (rest : Bool)
    → (m ≡ (noted_as b i n f).src_slot) ⊎ (rest ≡ true)
    → (m ≡ f.src_slot) ⊎ ((b && not i && n == m) || rest ≡ true)
noted_src b i n m f rest (inr later) = inr (or_right _ rest later)
noted_src true true n m f rest (inl e) = inl e
noted_src true false n m f rest (inl e) = inr (or_left (n == m) rest (same_num n m e))
noted_src false true n m f rest (inl e) = inl e
noted_src false false n m f rest (inl e) = inl e

noted_free :
    (b i : Bool) (n m : ℕ) (f : Seen) (rest : Bool)
    → (m ≡ (noted_as b i n f).free_ie) ⊎ (rest ≡ true)
    → (m ≡ f.free_ie) ⊎ ((not b && i && n == m) || rest ≡ true)
noted_free b i n m f rest (inr later) = inr (or_right _ rest later)
noted_free true true n m f rest (inl e) = inl e
noted_free true false n m f rest (inl e) = inl e
noted_free false true n m f rest (inl e) = elim (Bool-cases (f.free_ie == 0)) [
  | inl unset ↦ inr (or_left (n == m) rest (same_num n m (rw unset at e)))
  | inr set ↦ inl (rw set at e)
]
noted_free false false n m f rest (inl e) = inl e

not_foreign :
    (label : List ℕ) (s : MtxSlot)
    → is_foreign label s ≡ false
    → s.ie ≡ true
    → (s.label ≡ label) ⊎ (s.label ≡ [])
not_foreign label s own ie = elim (Bool-cases (bytes_eq s.label label)) [
  | inl same ↦ inl (bytes_eq_sound s.label label same)
  | inr other ↦ inr (bytes_eq_sound s.label [] (ground (arith, own, ie, other)))
]

differs : false ≡ true → ⊥
differs e = cc

loaded_in-NoneLoaded :
    (label : List ℕ) (ds : List MtxDrive) → loaded_in label ds ≡ false → NoneLoaded label ds
loaded_in-NoneLoaded label [] e = tt
loaded_in-NoneLoaded label (d ∷ ds) e = elim (Bool-cases (bytes_eq d.label label)) [
  | inl same ↦ absurd (cc (rw same at e))
  | inr other ↦ (
    λ h. differs (sym other ∙ ap (bytes_eq d.label) (sym h) ∙ bytes_eq_refl d.label),
    loaded_in-NoneLoaded label ds (rw other at e),
  )
]

noted-Scanned :
    (label : List ℕ) (f g : Seen) (s : MtxSlot) (ss : List MtxSlot)
    → is_foreign label s ≡ false
    → Scanned label (noted label s f) g ss
    → Scanned label f g (s ∷ ss)
noted-Scanned label f g s ss own r = record {
  alone = (not_foreign label s own, r.alone);
  ie_seen = r.ie_seen ∙ noted_ie (bytes_eq s.label label) s.ie s.num f (in_ie_of label ss);
  src_seen =
      noted_src (bytes_eq s.label label) s.ie s.num g.src_slot f (held_at label g.src_slot ss)
        r.src_seen;
  free_seen =
      noted_free (bytes_eq s.label label) s.ie s.num g.free_ie f (other_ie_at label g.free_ie ss)
        r.free_seen;
}

scan_map-Scanned :
    (label : List ℕ) (ss : List MtxSlot) (f g : Seen)
    → scan_map label f ss ≡ ok g
    → Scanned label f g ss
unfolding scan_map
scan_map-Scanned label [] f g e =
    let same : f ≡ g = cc in
    record {
      alone = tt;
      ie_seen = ap (λ x. x.in_ie) (sym same) ∙ or_nothing f.in_ie;
      src_seen = inl (ap (λ x. x.src_slot) (sym same));
      free_seen = inl (ap (λ x. x.free_ie) (sym same));
    }
  where
    or_nothing : (b : Bool) → b ≡ b || false
    or_nothing true = refl
    or_nothing false = refl
scan_map-Scanned label (s ∷ ss) f g e = elim (Bool-cases (is_foreign label s)) [
  | inl foreign ↦ absurd (cc (rw foreign at e))
  | inr own ↦
      noted-Scanned label f g s ss own (scan_map-Scanned label ss (noted label s f) g (rw own at e))
]

-- What a status says when a staging is chosen for it.
pub record Fit (label : List ℕ) (st : MtxStatus) (g : Staging) : Type 0 where
  pub not_loaded : NoneLoaded label st.drives
  pub alone : NoForeign label st.slots
  pub located : Located label st.slots g

nothing_seen : Seen
nothing_seen = record { src_slot = 0; free_ie = 0; in_ie = false }

chosen :
    (unknown inside none_free : Bool) (src ie : ℕ) (g : Staging)
    → (if unknown && not inside
        then err not_found
        else (if inside
            then ok in_map
            else (if none_free then err no_free_ie else ok (from_slot src ie))))
      ≡ ok g
    → ((inside ≡ true) × (in_map ≡ g))
      ⊎ ((unknown ≡ false) × (inside ≡ false) × (none_free ≡ false) × (from_slot src ie ≡ g))
chosen true true none_free src ie g e = inl (refl, cc)
chosen false true none_free src ie g e = inl (refl, cc)
chosen true false none_free src ie g e = absurd cc
chosen false false true src ie g e = absurd cc
chosen false false false src ie g e = inr (refl, refl, refl, cc)

unless_zero : {P : Type 0} → (n : ℕ) → (n ≡ 0) ⊎ P → (n == 0) ≡ false → P
unless_zero n (inl e) h = absurd (ground (arith, e, h))
unless_zero n (inr p) h = p

staged-Located :
    (label : List ℕ) (ss : List MtxSlot) (f : Seen) (g : Staging)
    → Scanned label nothing_seen f ss
    → staged (ok f) ≡ ok g
    → Located label ss g
unfolding nothing_seen
staged-Located label ss f g r e =
    elim (chosen (f.src_slot == 0) f.in_ie (f.free_ie == 0) f.src_slot f.free_ie g e) [
      | inl (inside, same) ↦ subst (Located label ss) same (sym r.ie_seen ∙ inside)
      | inr (known, outside, some_free, same) ↦ subst (Located label ss) same (
        sym r.ie_seen ∙ outside,
        unless_zero f.src_slot r.src_seen known,
        unless_zero f.free_ie r.free_seen some_free,
      )
    ]

staged-Fit :
    (label : List ℕ) (ss : List MtxSlot) (s : Result DeleteFault Seen) (g : Staging)
    → scan_map label nothing_seen ss ≡ s
    → staged s ≡ ok g
    → NoForeign label ss × Located label ss g
staged-Fit label ss (err x) g h e = absurd cc
staged-Fit label ss (ok f) g h e =
    let r = scan_map-Scanned label ss nothing_seen f h in (r.alone, staged-Located label ss f g r e)

pub find_staging-Fit :
    (label : List ℕ) (st : MtxStatus) (g : Staging)
    → find_staging label (some st) ≡ ok g
    → Fit label st g
unfolding find_staging nothing_seen
find_staging-Fit label st g e = elim (Bool-cases (loaded_in label st.drives)) [
  | inl held ↦ absurd (cc (rw held at e))
  | inr absent ↦
      let r = staged-Fit label st.slots _ g refl (rw absent at e) in
      record {
        not_loaded = loaded_in-NoneLoaded label st.drives absent;
        alone = r.0;
        located = r.1;
      }
]
