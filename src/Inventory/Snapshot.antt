-- ===== src/Inventory/Snapshot.antt =====
-- openvtld/internal/inventory/model.go: the observable state of the libraries, and the look-ups in it.
use open_vtl.Prelude.Text.{bytes_eq}
use open_vtl.Prelude.{
  ℕ, String, str_eq, Bool, ◌&&◌, Option, none, some, List, [], ◌∷◌, ◌++◌, ◌==◌, if◌then◌else◌, find,
  count_rows,
}

pub record Library : Type 0 where
  pub id : ℕ
  pub product : List ℕ
  pub serial : List ℕ
  pub home_dir : List ℕ
  pub num_slots : ℕ
  pub num_ie : ℕ
  pub num_drives : ℕ
  pub changer_sg : List ℕ
  pub live : Bool

pub record Drive : Type 0 where
  pub index : ℕ
  pub library : ℕ
  pub queue_id : ℕ
  pub serial : List ℕ
  pub product : List ℕ
  pub sg : List ℕ
  pub st : List ℕ
  -- the label of the loaded cartridge, or ""
  pub loaded : List ℕ
  pub source_slot : ℕ
  pub activity : String

-- The kind is "storage" or "ie".
pub record Slot : Type 0 where
  pub kind : String
  pub num : ℕ
  pub label : List ℕ

pub record Cart : Type 0 where
  pub label : List ℕ
  pub library : ℕ
  pub size_bytes : ℕ
  pub phys_bytes : ℕ
  pub modified : ℕ
  pub location : List ℕ

pub record LibrarySnapshot : Type 0 where
  pub library : Library
  pub drives : List Drive
  pub slots : List Slot
  pub carts : List Cart

unfoldable pub all_carts : List LibrarySnapshot → List Cart
all_carts [] = []
all_carts (l ∷ ls) = l.carts ++ all_carts ls

unfoldable pub library_by_id : ℕ → List LibrarySnapshot → Option LibrarySnapshot
library_by_id id libs = find (λ l. l.library.id == id) libs

unfoldable pub free_storage_slots : LibrarySnapshot → ℕ
free_storage_slots l = count_rows (λ s. str_eq s.kind "storage" && bytes_eq s.label []) l.slots

abbrev pub with_library :
    LibrarySnapshot
    → Option (Cart × LibrarySnapshot)
    → Option Cart
    → Option (Cart × LibrarySnapshot)
with_library l rest none = rest
with_library l rest (some c) = some (c, l)

abbrev pub has_label : List ℕ → Cart → Bool
has_label label c = bytes_eq c.label label

unfoldable pub find_cart : List ℕ → List LibrarySnapshot → Option (Cart × LibrarySnapshot)
find_cart label [] = none
find_cart label (l ∷ ls) = with_library l (find_cart label ls) (find (has_label label) l.carts)

-- forgetCart on the cartridges of one library: the first of that label goes.
unfoldable pub without_cart : List ℕ → List Cart → List Cart
without_cart label [] = []
without_cart label (c ∷ cs) =
    let rest = without_cart label cs in if has_label label c then cs else c ∷ rest

unfoldable pub forget_cart : ℕ → List ℕ → List LibrarySnapshot → List LibrarySnapshot
unfolding without_cart
forget_cart id label [] = []
forget_cart id label (l ∷ ls) =
    (if l.library.id == id then record l { carts = without_cart label l.carts } else l)
    ∷ forget_cart id label ls
