-- ===== src/License/Typos.antt =====
-- Which typing mistakes the checksum of openvtld/internal/license/fingerprint.go catches.
use mathlib.Core.List.{map}
use native.Mathlib.Nat.{zero-add, add-zero}
use open_vtl.Prelude.Text.{at_each, at_each_sound}
use open_vtl.Prelude.{
  ℕ, suc, ◌+◌, ◌*◌, ◌%◌, ◌<◌, ◌≡◌, ◌≢◌, refl, true, false, List, [], ◌∷◌, ◌++◌, arith, ap, sym, ◌∙◌,
  length, length-append, ◌==◌, ==_iff, ◌↔◌, not, ◌||◌, inl, inr, Bool-cases, ◌/◌,
}
use open_vtl.License.{symbol, is_valid, layout}
use open_vtl.License.Layout.{AreValues}
use open_vtl.License.Checksum.{
  weighted, is_valid-layout, AreValues-append, take-append, get_or-append,
}

-- The key with the data values `vs` and the check value `c`.
abbrev pub key_of : List ℕ → ℕ → List ℕ
key_of vs c = layout (map symbol (vs ++ c ∷ []))

weighted-append :
    (i : ℕ) (xs ys : List ℕ) → weighted i (xs ++ ys) ≡ weighted i xs + weighted (i + length xs) ys
unfolding weighted
weighted-append i [] ys = rw (zero-add, add-zero)
weighted-append i (x ∷ xs) ys =
    let e : weighted (i + 1 + length xs) ys ≡ weighted (i + suc (length xs)) ys =
      ap (λ n. weighted n ys) (omega arith) in
    omega (arith, weighted-append (i + 1) xs ys, e)

is_valid-key_of :
    (vs : List ℕ) (c : ℕ)
    → length vs ≡ 19
    → AreValues vs
    → c < 32
    → is_valid (key_of vs c) ≡ (weighted 0 vs % 32 == c)
is_valid-key_of vs c len h hc =
    is_valid-layout (vs ++ c ∷ []) (omega (arith, length-append vs (c ∷ [])))
      (AreValues-append vs (c ∷ []) h (hc, tt))
    ∙ rw (take-append 19 vs (c ∷ []) len, get_or-append 19 c vs [] len)

-- The weighted sum with one value singled out: `r` is what the others give.
weighted_split :
    (xs ys : List ℕ) → (r : ℕ) × ((v : ℕ) → weighted 0 (xs ++ v ∷ ys) ≡ r + (length xs + 1) * v)
unfolding weighted
weighted_split xs ys =
    let n = length xs in
    (
      weighted 0 xs + weighted (n + 1) ys,
      λ v. omega (arith, weighted-append 0 xs (v ∷ ys), zero_add n v ys),
    )
  where
    zero_add :
        (n v : ℕ) (ys : List ℕ) → weighted (0 + n) (v ∷ ys) ≡ (n + 1) * v + weighted (n + 1) ys
    zero_add n v ys = ap (λ i. weighted i (v ∷ ys)) (omega arith)

length-with :
    (xs ys : List ℕ) (v : ℕ) → length xs + suc (length ys) ≡ 19 → length (xs ++ v ∷ ys) ≡ 19
length-with xs ys v len = length-append xs (v ∷ ys) ∙ len

same_residue : (r p q : ℕ) → ((r + p) % 32 ≡ (r + q) % 32) ↔ (p % 32 ≡ q % 32)
same_residue r p q = (λ h. omega arith, λ h. omega arith)

-- A valid key in which the symbol of weight `w` reads `b` in place of `a` is still valid exactly if
-- w * a and w * b agree modulo 32.
pub is_valid-typo_iff :
    (xs ys : List ℕ) (a b c : ℕ)
    → length xs + suc (length ys) ≡ 19
    → AreValues (xs ++ a ∷ ys)
    → AreValues (xs ++ b ∷ ys)
    → c < 32
    → is_valid (key_of (xs ++ a ∷ ys) c) ≡ true
    → (is_valid (key_of (xs ++ b ∷ ys) c) ≡ true)
      ↔ ((length xs + 1) * a % 32 ≡ (length xs + 1) * b % 32)
is_valid-typo_iff xs ys a b c len ha hb hc valid =
    let (r, split) = weighted_split xs ys in
    let w = length xs + 1 in
    let was : (r + w * a) % 32 ≡ c =
      ap (λ t. t % 32) (sym (split a))
      ∙ (==_iff (weighted 0 (xs ++ a ∷ ys) % 32) c).0
          (sym (is_valid-key_of (xs ++ a ∷ ys) c (length-with xs ys a len) ha hc) ∙ valid) in
    let now : is_valid (key_of (xs ++ b ∷ ys) c) ≡ ((r + w * b) % 32 == c) =
      is_valid-key_of (xs ++ b ∷ ys) c (length-with xs ys b len) hb hc ∙ rw (split b) in
    let residue = same_residue r (w * a) (w * b) in
    (
      λ h. residue.0 (was ∙ sym ((==_iff ((r + w * b) % 32) c).0 (sym now ∙ h))),
      λ h. now ∙ (==_iff ((r + w * b) % 32) c).1 (sym (residue.1 h) ∙ was),
    )

-- The weights of the data symbols and the pairs of values, checked one by one: with an odd weight
-- two values have two products.
odd_weight_table :
    at_each 19 (λ i.
      at_each 32
        (λ a. at_each 32 (λ b. i % 2 == 1 || not ((i + 1) * a % 32 == (i + 1) * b % 32) || a == b)))
    ≡ true
unfolding at_each
odd_weight_table = refl

odd_weight :
    (i a b : ℕ) → i < 19 → i % 2 ≡ 0 → a < 32 → b < 32 → (i + 1) * a % 32 ≡ (i + 1) * b % 32 → a ≡ b
odd_weight i a b hi even ha hb same = ground (
  arith,
  at_each_sound 32 _ b (at_each_sound 32 _ a (at_each_sound 19 _ i odd_weight_table hi) ha) hb,
)

-- A wrong symbol in the first, third, … place of the data, whose weight is odd, makes the key invalid.
pub typo_caught :
    (xs ys : List ℕ) (a b c : ℕ)
    → length xs + suc (length ys) ≡ 19
    → length xs % 2 ≡ 0
    → a < 32
    → b < 32
    → AreValues (xs ++ a ∷ ys)
    → AreValues (xs ++ b ∷ ys)
    → c < 32
    → is_valid (key_of (xs ++ a ∷ ys) c) ≡ true
    → a ≢ b
    → is_valid (key_of (xs ++ b ∷ ys) c) ≡ false
typo_caught xs ys a b c len odd a32 b32 ha hb hc valid differ =
    elim (Bool-cases (is_valid (key_of (xs ++ b ∷ ys) c))) [
      | inl still ↦ absurd (
          differ (
            odd_weight (length xs) a b (omega arith) odd a32 b32
              ((is_valid-typo_iff xs ys a b c len ha hb hc valid).0 still)))
      | inr caught ↦ caught
    ]

-- In the second, fourth, … place, whose weight is even, a symbol that is off by sixteen is missed.
pub typo_missed :
    (xs ys : List ℕ) (a c : ℕ)
    → length xs + suc (length ys) ≡ 19
    → length xs % 2 ≡ 1
    → AreValues (xs ++ a ∷ ys)
    → AreValues (xs ++ (a + 16) ∷ ys)
    → c < 32
    → is_valid (key_of (xs ++ a ∷ ys) c) ≡ true
    → is_valid (key_of (xs ++ (a + 16) ∷ ys) c) ≡ true
typo_missed xs ys a c len even ha hb hc valid =
    let n = length xs in
    let half : 2 * (n / 2) + 1 ≡ n = omega arith in
    (is_valid-typo_iff xs ys a (a + 16) c len ha hb hc valid).1
      (omega (arith, ap (λ (m : ℕ). (m + 1) * a) half))

-- The weighted sum with two neighbours singled out.
weighted_pair :
    (xs ys : List ℕ)
    → (r : ℕ) × ((u v : ℕ)
        → weighted 0 (xs ++ u ∷ v ∷ ys) ≡ r + (length xs + 1) * u + (length xs + 1 + 1) * v)
unfolding weighted
weighted_pair xs ys =
    let n = length xs in
    (
      weighted 0 xs + weighted (n + 1 + 1) ys,
      λ u v. omega (arith, weighted-append 0 xs (u ∷ v ∷ ys), zero_add n u v ys),
    )
  where
    zero_add :
        (n u v : ℕ) (ys : List ℕ)
        → weighted (0 + n) (u ∷ v ∷ ys) ≡ (n + 1) * u + ((n + 1 + 1) * v + weighted (n + 1 + 1) ys)
    zero_add n u v ys = ap (λ i. weighted i (u ∷ v ∷ ys)) (omega arith)

-- Two different neighbours of the data in the wrong order make the key invalid.
pub swap_caught :
    (xs ys : List ℕ) (a b c : ℕ)
    → length xs + suc (suc (length ys)) ≡ 19
    → a < 32
    → b < 32
    → AreValues (xs ++ a ∷ b ∷ ys)
    → AreValues (xs ++ b ∷ a ∷ ys)
    → c < 32
    → is_valid (key_of (xs ++ a ∷ b ∷ ys) c) ≡ true
    → a ≢ b
    → is_valid (key_of (xs ++ b ∷ a ∷ ys) c) ≡ false
swap_caught xs ys a b c len a32 b32 hab hba hc valid differ =
    let (r, split) = weighted_pair xs ys in
    let before = weighted 0 (xs ++ a ∷ b ∷ ys) in
    let after = weighted 0 (xs ++ b ∷ a ∷ ys) in
    let was : before % 32 ≡ c =
      (==_iff (before % 32) c).0 (
        sym (is_valid-key_of (xs ++ a ∷ b ∷ ys) c (length-with xs (b ∷ ys) a len) hab hc)
        ∙ valid) in
    let now : is_valid (key_of (xs ++ b ∷ a ∷ ys) c) ≡ (after % 32 == c) =
      is_valid-key_of (xs ++ b ∷ a ∷ ys) c (length-with xs (a ∷ ys) b len) hba hc in
    elim (Bool-cases (after % 32 == c)) [
      | inl same ↦
          let e : after % 32 ≡ c = (==_iff (after % 32) c).0 same in
          absurd (differ (omega (arith, was, e, split a b, split b a)))
      | inr other ↦ now ∙ other
    ]
