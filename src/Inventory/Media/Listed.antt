-- ===== src/Inventory/Media/Listed.antt =====
-- The cartridges that applyMedia of openvtld/internal/inventory/engine.go leaves, one by one.
use open_vtl.Prelude.Text.{ascii, bytes_eq, bytes_eq_sound}
use open_vtl.Prelude.Words.{bytes_eq_refl}
use open_vtl.Prelude.{
  ℕ, ◌≡◌, refl, sym, ap, ◌∙◌, Bool, true, false, not, ◌&&◌, ◌||◌, Option, none, some, List, [], ◌∷◌,
  ◌++◌, if◌then◌else◌, append-nil, append_assoc, Bool-cases, inl, inr,
}
use open_vtl.Inventory.Snapshot.{Cart}
use open_vtl.Inventory.Media.{MediaInfo, any_cart, measure, new_cart, apply_media}

-- The last of the media with the label, after `found`.
abbrev pub last_medium : List ℕ → Option MediaInfo → List MediaInfo → Option MediaInfo
last_medium label found [] = found
last_medium label found (m ∷ ms) =
    last_medium label (if bytes_eq label m.label then some m else found) ms

-- The figures of a medium; label, library and location stay.
abbrev pub with_figures : Option MediaInfo → Cart → Cart
with_figures none c = c
with_figures (some m) c = record {
  label = c.label;
  library = c.library;
  size_bytes = m.size_bytes;
  phys_bytes = m.phys_bytes;
  modified = m.modified;
  location = c.location;
}

abbrev pub is_listed : List ℕ → List Cart → Bool
is_listed label [] = false
is_listed label (c ∷ cs) = bytes_eq c.label label || is_listed label cs

-- Each cartridge with the figures of the medium of its label, if no later one has that label.
abbrev pub refreshed : List MediaInfo → List Cart → List Cart
refreshed ms [] = []
refreshed ms (c ∷ cs) =
    (if is_listed c.label cs then c else with_figures (last_medium c.label none ms) c)
    ∷ refreshed ms cs

-- A missing cartridge for each of the media whose label is not listed.
abbrev pub added : ℕ → List MediaInfo → List Cart → List Cart
added library [] cs = []
added library (m ∷ ms) cs =
    let rest = added library ms cs in
    if is_listed m.label cs
    then rest
    else record {
      label = m.label;
      library = library;
      size_bytes = m.size_bytes;
      phys_bytes = m.phys_bytes;
      modified = m.modified;
      location = ascii "missing";
    }
      ∷ rest

any_cart-is_listed : (label : List ℕ) (cs : List Cart) → any_cart label cs ≡ is_listed label cs
any_cart-is_listed label [] = refl
any_cart-is_listed label (c ∷ cs) =
    ap (λ b. bytes_eq c.label label || b) (any_cart-is_listed label cs)

measure_other : (m : MediaInfo) (cs : List Cart) → any_cart m.label cs ≡ false → measure m cs ≡ cs
unfolding measure
measure_other m [] h = refl
measure_other m (c ∷ cs) h = elim (Bool-cases (bytes_eq c.label m.label)) [
  | inl same ↦ absurd (cc (rw same at h))
  | inr other ↦ rw other (ap (λ t. c ∷ t) (measure_other m cs (rw other at h)))
]

-- The three cases of measure at one cartridge.
data AtCart (m : MediaInfo) (c : Cart) (cs : List Cart) : Type 0 where
  other_label :
      bytes_eq c.label m.label ≡ false → measure m (c ∷ cs) ≡ c ∷ measure m cs → AtCart m c cs
  not_last :
      c.label ≡ m.label
      → any_cart m.label cs ≡ true
      → measure m (c ∷ cs) ≡ c ∷ measure m cs
      → AtCart m c cs
  is_last :
      c.label ≡ m.label
      → any_cart m.label cs ≡ false
      → measure m (c ∷ cs) ≡ with_figures (some m) c ∷ cs
      → AtCart m c cs

at_cart : (m : MediaInfo) (c : Cart) (cs : List Cart) → AtCart m c cs
unfolding measure
at_cart m c cs = elim (Bool-cases (bytes_eq c.label m.label)) [
  | inr other ↦ other_label other (rw other refl)
  | inl same ↦ elim (Bool-cases (any_cart m.label cs)) [
    | inl again ↦ not_last (bytes_eq_sound c.label m.label same) again (rw same (rw again refl))
    | inr once ↦ is_last (bytes_eq_sound c.label m.label same) once (rw same (rw once refl))
  ]
]

is_listed-measure :
    (label : List ℕ) (m : MediaInfo) (cs : List Cart)
    → is_listed label (measure m cs) ≡ is_listed label cs
unfolding measure
is_listed-measure label m [] = refl
is_listed-measure label m (c ∷ cs) =
    elim (Bool-cases (bytes_eq c.label m.label && not (any_cart m.label cs))) [
      | inl last ↦ rw last refl
      | inr other ↦ rw other (ap (λ b. bytes_eq c.label label || b) (is_listed-measure label m cs))
    ]

-- Figures are overwritten by later ones.
figures_after :
    (label : List ℕ) (m : MediaInfo) (ms : List MediaInfo) (c : Cart)
    → with_figures (last_medium label none ms) (with_figures (some m) c)
      ≡ with_figures (last_medium label (some m) ms) c
figures_after label m [] c = refl
figures_after label m (k ∷ ms) c = elim (Bool-cases (bytes_eq label k.label)) [
  | inl same ↦
      rw (same, last_medium)
        (sym (figures_after label k ms (with_figures (some m) c)) ∙ figures_after label k ms c)
  | inr other ↦ rw (other, last_medium) (figures_after label m ms c)
]

measure_empty : (m : MediaInfo) → measure m [] ≡ []
unfolding measure
measure_empty m = refl

listed_same :
    (m : MediaInfo) (c : Cart) (cs : List Cart)
    → c.label ≡ m.label
    → is_listed c.label cs ≡ any_cart m.label cs
listed_same m c cs same = ap (λ l. is_listed l cs) same ∙ sym (any_cart-is_listed m.label cs)

refreshed-measure :
    (m : MediaInfo) (ms : List MediaInfo) (cs : List Cart)
    → refreshed ms (measure m cs) ≡ refreshed (m ∷ ms) cs
refreshed-measure m ms [] = ap (refreshed ms) (measure_empty m)
refreshed-measure m ms (c ∷ cs) = elim (at_cart m c cs) [
  | other_label other e ↦ rw e (
      rw (is_listed-measure c.label m cs) (
        rw other (
          ap
            (λ t.
              (if is_listed c.label cs then c else with_figures (last_medium c.label none ms) c)
              ∷ t)
            (refreshed-measure m ms cs))))
  | not_last same again e ↦ rw e (
      rw (is_listed-measure c.label m cs)
        (rw (listed_same m c cs same ∙ again) (ap (λ t. c ∷ t) (refreshed-measure m ms cs))))
  | is_last same once e ↦ rw e (
      rw (listed_same m c cs same ∙ once) (
        rw (ap (bytes_eq c.label) (sym same) ∙ bytes_eq_refl c.label) (
          ap (λ x. x ∷ refreshed ms cs) (figures_after c.label m ms c)
          ∙ ap (λ t. with_figures (last_medium c.label (some m) ms) c ∷ t)
              (ap (refreshed ms) (sym (measure_other m cs once)) ∙ refreshed-measure m ms cs))))
]

refreshed_none : (cs : List Cart) → refreshed [] cs ≡ cs
refreshed_none [] = refl
refreshed_none (c ∷ cs) = elim (Bool-cases (is_listed c.label cs)) [
  | inl again ↦ rw again (ap (λ t. c ∷ t) (refreshed_none cs))
  | inr once ↦ rw once (ap (λ t. c ∷ t) (refreshed_none cs))
]

added-measure :
    (library : ℕ) (m : MediaInfo) (ms : List MediaInfo) (cs : List Cart)
    → added library ms (measure m cs) ≡ added library ms cs
added-measure library m [] cs = refl
added-measure library m (k ∷ ms) cs =
    rw (is_listed-measure k.label m cs) (rw (added-measure library m ms cs) refl)

apply_media_on :
    (library : ℕ) (ms : List MediaInfo) (known fresh : List Cart)
    → apply_media library ms known fresh ≡ refreshed ms known ++ (fresh ++ added library ms known)
unfolding apply_media
apply_media_on library [] known fresh =
    ap (λ t. t ++ fresh) (sym (refreshed_none known))
    ∙ ap (λ t. refreshed [] known ++ t) (sym (append-nil fresh))
apply_media_on library (m ∷ ms) known fresh = elim (Bool-cases (any_cart m.label known)) [
  | inl old ↦ rw old (
      apply_media_on library ms (measure m known) fresh
      ∙ ap (λ t. t ++ (fresh ++ added library ms (measure m known))) (refreshed-measure m ms known)
      ∙ ap (λ t. refreshed (m ∷ ms) known ++ (fresh ++ t)) (added-measure library m ms known))
  | inr new ↦ rw new (
      apply_media_on library ms known (fresh ++ new_cart library m ∷ [])
      ∙ ap (λ t. t ++ ((fresh ++ new_cart library m ∷ []) ++ added library ms known))
          (ap (refreshed ms) (sym (measure_other m known new)) ∙ refreshed-measure m ms known)
      ∙ ap (λ t. refreshed (m ∷ ms) known ++ t)
          (append_assoc fresh (new_cart library m ∷ []) (added library ms known)))
]

-- Taking the media directories in keeps every cartridge that was listed, in its place, with its label, library and
-- location; its figures become those of the last of the media that has its label, if no later cartridge has that
-- label too, and stay otherwise. After them come, in the order of the media, missing cartridges for those
-- whose label was not listed.
pub apply_media_lem :
    (library : ℕ) (ms : List MediaInfo) (carts : List Cart)
    → apply_media library ms carts [] ≡ refreshed ms carts ++ added library ms carts
apply_media_lem library ms carts = apply_media_on library ms carts []
