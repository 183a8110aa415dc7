-- ===== src/Prelude/Words.antt =====
-- Texts as bytes: trimmed, split, joined, compared with a list of others (package strings, for ASCII).
use Prim.Native.Nat.{ℕ}
use mathlib.Core.Path.{◌≡◌, refl}
use mathlib.Core.Logic.{◌≢◌, inl, inr}
use mathlib.Core.Bool.{Bool, true, false, ◌&&◌, ◌||◌}
use mathlib.Core.List.{List, [], ◌∷◌, ◌++◌, reverse}
use native.Mathlib.Omega.{arith}
use open_vtl.Prelude.Tests.{◌==◌, leb, Bool-cases, if◌then◌else◌}
use open_vtl.Prelude.Text.{bytes_eq, bytes_eq_sound, starts_with}
use open_vtl.Prelude.Lists.{length, drop}

-- unicode.IsSpace on ASCII: tab, newline, vertical tab, form feed, return and space.
abbrev pub is_space : ℕ → Bool
is_space c = c == 32 || (leb 9 c && leb c 13)

trim_left : List ℕ → List ℕ
trim_left [] = []
trim_left (c ∷ cs) = let rest = trim_left cs in if is_space c then rest else c ∷ cs

-- strings.TrimSpace
unfoldable pub trim_bytes : List ℕ → List ℕ
unfolding trim_left
trim_bytes s = reverse (trim_left (reverse (trim_left s)))

-- strings.TrimPrefix, the prefix first.
unfoldable pub trim_prefix : List ℕ → List ℕ → List ℕ
unfolding starts_with
trim_prefix p s = if starts_with p s then drop (length p) s else s

-- A byte goes to the first part.
abbrev pub to_first : ℕ → List (List ℕ) → List (List ℕ)
to_first c [] = (c ∷ []) ∷ []
to_first c (p ∷ ps) = (c ∷ p) ∷ ps

-- strings.Split by one byte.
unfoldable pub split_on : ℕ → List ℕ → List (List ℕ)
split_on sep [] = [] ∷ []
split_on sep (c ∷ cs) =
    let rest = split_on sep cs in if c == sep then [] ∷ rest else to_first c rest

-- The parts trimmed, without those that are empty then.
unfoldable pub trimmed_parts : List (List ℕ) → List (List ℕ)
unfolding trim_bytes
trimmed_parts [] = []
trimmed_parts (p ∷ ps) =
    let rest = trimmed_parts ps in let q = trim_bytes p in if bytes_eq q [] then rest else q ∷ rest

-- strings.Join by one byte.
unfoldable pub join_with : ℕ → List (List ℕ) → List ℕ
join_with sep [] = []
join_with sep (p ∷ []) = p
join_with sep (p ∷ q ∷ ps) = p ++ sep ∷ join_with sep (q ∷ ps)

-- Whether a text is among the others, as a key of a `map[string]bool`.
abbrev pub holds_text : List (List ℕ) → List ℕ → Bool
holds_text [] s = false
holds_text (t ∷ ts) s = bytes_eq t s || holds_text ts s

pub bytes_eq_refl : (s : List ℕ) → bytes_eq s s ≡ true
bytes_eq_refl [] = refl
bytes_eq_refl (c ∷ cs) = ground (arith, bytes_eq_refl cs)

pub bytes_ne : (s t : List ℕ) → s ≢ t → bytes_eq s t ≡ false
bytes_ne s t apart = elim (Bool-cases (bytes_eq s t)) [
  | inl same ↦ absurd (apart (bytes_eq_sound s t same))
  | inr other ↦ other
]
