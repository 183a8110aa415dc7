-- ===== src/Inventory/Labels.antt =====
-- openvtld/internal/inventory/mint.go: the labels of new cartridges, and what a library's drives say of them.
pub mod Next
use open_vtl.Prelude.Text.{ascii, bytes_eq, decimal}
use open_vtl.Prelude.Words.{holds_text}
use open_vtl.Prelude.{
  ℕ, zero, suc, ◌+◌, ◌-◌, ◌*◌, String, Bool, true, false, ◌&&◌, ◌||◌, Option, none, some, List, [],
  ◌∷◌, ◌++◌, ltb, leb, ◌==◌, if◌then◌else◌, length, take, drop,
}
use open_vtl.Inventory.{MhvtlDrive, MhvtlLibrary}
use open_vtl.Inventory.Models.{DriveModel, drive_model_by_product}
use open_vtl.Inventory.Creation.{padded}

is_number : ℕ → Bool
is_number c = leb b'0' c && leb c b'9'

is_capital : ℕ → Bool
is_capital c = leb b'A' c && leb c b'Z'

each_byte : (ℕ → Bool) → List ℕ → Bool
each_byte test [] = true
each_byte test (c ∷ cs) = test c && each_byte test cs

-- (L[1-9]|J[AB])
is_media : List ℕ → Bool
is_media (a ∷ b ∷ []) =
    (a == b'L' && leb b'1' b && leb b b'9') || (a == b'J' && (b == b'A' || b == b'B'))
is_media _ = false

-- LabelRe
unfoldable pub is_label : List ℕ → Bool
unfolding is_number is_capital each_byte is_media
is_label l =
    each_byte (λ c. is_capital c || is_number c) (take 6 l) && length l == 8 && is_media (drop 6 l)

number_in : ℕ → List ℕ → ℕ
number_in n [] = n
number_in n (c ∷ cs) = number_in (n * 10 + (c - b'0')) cs

-- reLabelParts, with the number read.
unfoldable pub label_parts : List ℕ → Option (List ℕ × ℕ × List ℕ)
unfolding is_number is_capital each_byte is_media number_in
label_parts l =
    if each_byte (λ c. is_capital c || is_number c) (take 3 l)
      && each_byte is_number (take 3 (drop 3 l))
      && length l == 8
      && is_media (drop 6 l)
    then some (take 3 l, number_in 0 (take 3 (drop 3 l)), drop 6 l)
    else none

abbrev pub raise : List ℕ → List ℕ → Option (List ℕ × ℕ × List ℕ) → ℕ → ℕ
raise prefix suffix none m = m
raise prefix suffix (some (p, n, s)) m =
    if bytes_eq p prefix && bytes_eq s suffix && ltb m n then n else m

-- The highest number of the labels with the prefix and the suffix.
unfoldable pub highest : List ℕ → List ℕ → ℕ → List (List ℕ) → ℕ
unfolding label_parts
highest prefix suffix m [] = m
highest prefix suffix m (l ∷ ls) = highest prefix suffix (raise prefix suffix (label_parts l) m) ls

abbrev pub candidate : List ℕ → List ℕ → ℕ → List ℕ
candidate prefix suffix n = prefix ++ padded 3 n ++ suffix

-- `k` candidates, from the number `n`; "" when all are taken.
unfoldable pub first_label : ℕ → ℕ → List (List ℕ) → List ℕ → List ℕ → List ℕ
unfolding padded
first_label zero n known prefix suffix = []
first_label (suc k) n known prefix suffix =
    let rest = first_label k (n + 1) known prefix suffix in
    if holds_text known (candidate prefix suffix n) then rest else candidate prefix suffix n

unfoldable pub next_label : List (List ℕ) → List ℕ → List ℕ → List ℕ
unfolding highest first_label
next_label known prefix suffix =
    let max = highest prefix suffix 0 known in first_label (999 - max) (max + 1) known prefix suffix

first_model : List MhvtlDrive → Option DriveModel
unfolding drive_model_by_product
first_model [] = none
first_model (d ∷ ds) = drive_model_by_product d.product

abbrev pub density_of : Option DriveModel → String × List ℕ
density_of none = ("LTO5", ascii "L5")
density_of (some dm) = (dm.density, dm.suffix)

unfoldable pub mint_density : MhvtlLibrary → String × List ℕ
unfolding first_model
mint_density lib = density_of (first_model lib.drives)

abbrev pub capacity_of : Option DriveModel → ℕ
capacity_of none = 1500000
capacity_of (some dm) = if ltb 0 dm.capacity_mb then dm.capacity_mb else 1500000

unfoldable pub mint_capacity_mb : MhvtlLibrary → ℕ
unfolding first_model
mint_capacity_mb lib = capacity_of (first_model lib.drives)
