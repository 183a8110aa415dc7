-- ===== src/Tests/Removal.antt =====
-- A library taken out of a small device.conf (openvtld/internal/inventory/libremove.go).
use open_vtl.Prelude.Text.{ascii, decimal}
use open_vtl.Prelude.Words.{split_on, join_with}
use open_vtl.Prelude.{ℕ, ◌≡◌, refl, List, [], ◌∷◌, ◌++◌}
use open_vtl.Inventory.Removal.{without_library}
use open_vtl.Inventory.Removal.Blocks.{blocks_of, kept_lines, without_library_lem}

abbrev preamble : List (List ℕ)
preamble = ascii "VERSION: 5" ∷ ascii "" ∷ []

abbrev library_10 : List (List ℕ)
library_10 =
    ascii "Library: 10 CHANNEL: 00 TARGET: 00 LUN: 00"
    ∷ ascii " Product identification: 3573-TL"
    ∷ []

-- The drive of library 20 stands before its library.
abbrev library_20 : List (List ℕ)
library_20 =
    ascii "Drive: 21 CHANNEL: 00 TARGET: 03 LUN: 00"
    ∷ ascii " Library ID: 20 Slot: 01"
    ∷ ascii "Library: 20 CHANNEL: 00 TARGET: 02 LUN: 00"
    ∷ []

abbrev drive_11 : List (List ℕ)
drive_11 = ascii "Drive: 11 CHANNEL: 00 TARGET: 01 LUN: 00" ∷ ascii " Library ID: 10 Slot: 01" ∷ []

abbrev device_conf : List ℕ
unfolding join_with
device_conf = join_with b'\n' (preamble ++ library_10 ++ library_20 ++ drive_11)

without_library_test :
    without_library 20 device_conf ≡ join_with b'\n' (preamble ++ library_10 ++ drive_11)
unfolding without_library device_conf
without_library_test = refl

without_library_example :
    let conf = blocks_of (split_on b'\n' device_conf) in
    without_library 20 device_conf ≡ join_with b'\n' (conf.0 ++ kept_lines (decimal 20) conf.1)
without_library_example = without_library_lem 20 device_conf
