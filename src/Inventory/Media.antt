-- ===== src/Inventory/Media.antt =====
-- openvtld/internal/inventory/engine.go: applyMedia, which takes the media directories of a library into its
-- snapshot.
pub mod Listed
use open_vtl.Prelude.Text.{ascii, bytes_eq}
use open_vtl.Prelude.{
  ℕ, ◌+◌, Bool, true, false, not, ◌&&◌, ◌||◌, List, [], ◌∷◌, ◌++◌, if◌then◌else◌,
}
use open_vtl.Inventory.Snapshot.{Cart}

pub record MediaInfo : Type 0 where
  pub label : List ℕ
  pub size_bytes : ℕ
  pub phys_bytes : ℕ
  pub modified : ℕ

abbrev pub any_cart : List ℕ → List Cart → Bool
any_cart label [] = false
any_cart label (c ∷ cs) = bytes_eq c.label label || any_cart label cs

-- The last cartridge with the label gets the new figures.
unfoldable pub measure : MediaInfo → List Cart → List Cart
measure m [] = []
measure m (c ∷ cs) =
    let rest = measure m cs in
    if bytes_eq c.label m.label && not (any_cart m.label cs)
    then record c { size_bytes = m.size_bytes; phys_bytes = m.phys_bytes; modified = m.modified }
      ∷ cs
    else c ∷ rest

abbrev pub new_cart : ℕ → MediaInfo → Cart
new_cart library m = record {
  label = m.label;
  library = library;
  size_bytes = m.size_bytes;
  phys_bytes = m.phys_bytes;
  modified = m.modified;
  location = ascii "missing";
}

-- The cartridges; `known` are those of before, which `byLabel` was made from, and `fresh` those appended.
unfoldable pub apply_media : ℕ → List MediaInfo → List Cart → List Cart → List Cart
unfolding measure
apply_media library [] known fresh = known ++ fresh
apply_media library (m ∷ ms) known fresh =
    let updated = apply_media library ms (measure m known) fresh in
    let added = apply_media library ms known (fresh ++ new_cart library m ∷ []) in
    if any_cart m.label known then updated else added
