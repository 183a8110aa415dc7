-- ===== src/Tests/License.antt =====
-- Runs of the support key at concrete inputs (openvtld/internal/license/fingerprint.go).
use open_vtl.Prelude.Text.{ascii}
use open_vtl.Prelude.{
  ℕ, ◌+◌, ◌*◌, ◌%◌, ◌≡◌, refl, ◌↔◌, true, false, some, List, [], ◌∷◌, ◌++◌, arith,
}
use open_vtl.License.{symbol, index_byte, is_dash_place, is_valid, layout, format}
use open_vtl.License.Checksum.{format-is_valid}
use open_vtl.License.Typos.{key_of, is_valid-typo_iff, typo_caught, typo_missed, swap_caught}

abbrev digest : List ℕ
digest =
    255 ∷ 1 ∷ 34 ∷ 67 ∷ 100 ∷ 0 ∷ 0 ∷ 9 ∷ 8 ∷ 7 ∷ 6 ∷ 5 ∷ 4 ∷ 3 ∷ 2 ∷ 1 ∷ 0 ∷ 200 ∷ 31 ∷ 77 ∷ []

abbrev digest_key : List ℕ
digest_key = ascii "OVTL-Z1234-00987-65432-108Z4"

digest_has_key : format digest ≡ some digest_key
unfolding format layout symbol
digest_has_key = refl

format-is_valid_example : (key : List ℕ) × (format digest ≡ some key) × (is_valid key ≡ true)
format-is_valid_example = format-is_valid digest (omega arith)

abbrev zeros : List ℕ
zeros = 0 ∷ 0 ∷ 0 ∷ 0 ∷ 0 ∷ 0 ∷ 0 ∷ 0 ∷ 0 ∷ 0 ∷ 0 ∷ 0 ∷ 0 ∷ 0 ∷ 0 ∷ []

abbrev front : List ℕ
front = 0 ∷ 1 ∷ []

front_accepted : is_valid (key_of (front ++ 2 ∷ 0 ∷ zeros) 8) ≡ true
unfolding is_valid layout symbol index_byte is_dash_place
front_accepted = refl

is_valid-typo_iff_example :
    (is_valid (key_of (front ++ 9 ∷ 0 ∷ zeros) 8) ≡ true) ↔ ((2 + 1) * 2 % 32 ≡ (2 + 1) * 9 % 32)
is_valid-typo_iff_example =
    is_valid-typo_iff front (0 ∷ zeros) 2 9 8 refl (omega arith) (omega arith) (omega arith)
      front_accepted

typo_caught_example : is_valid (key_of (front ++ 5 ∷ 0 ∷ zeros) 8) ≡ false
typo_caught_example =
    typo_caught front (0 ∷ zeros) 2 5 8 refl refl (omega arith) (omega arith) (omega arith)
      (omega arith) (omega arith) front_accepted (omega arith)

typo_missed_example : is_valid (key_of (0 ∷ (1 + 16) ∷ 2 ∷ 0 ∷ zeros) 8) ≡ true
typo_missed_example =
    typo_missed (0 ∷ []) (2 ∷ 0 ∷ zeros) 1 8 refl refl (omega arith) (omega arith) (omega arith)
      front_accepted

swap_caught_example : is_valid (key_of (0 ∷ 2 ∷ 1 ∷ 0 ∷ zeros) 8) ≡ false
swap_caught_example =
    swap_caught (0 ∷ []) (0 ∷ zeros) 1 2 8 refl (omega arith) (omega arith) (omega arith)
      (omega arith) (omega arith) front_accepted (omega arith)
