-- ===== src/Inventory/Labels/Next.antt =====
-- The label that NextLabel of openvtld/internal/inventory/mint.go proposes.
use open_vtl.Prelude.Text.{bytes_eq, bytes_eq_sound}
use open_vtl.Prelude.Words.{holds_text}
use open_vtl.Prelude.{
  Bool, true, false, ◌&&◌, if◌then◌else◌, ltb, ℕ, zero, suc, ◌+◌, ◌-◌, ◌≤◌, ◌<◌, ◌≡◌, refl, sym, ap,
  ◌∙◌, subst, true, false, ◌⊎◌, inl, inr, Option, none, some, List, [], ◌∷◌, ltb, arith, Bool-cases,
}
use open_vtl.Inventory.Labels.{label_parts, raise, highest, candidate, first_label, next_label}

-- Every label with the prefix and the suffix has a number of at most `m`.
abbrev pub Below : List ℕ → List ℕ → ℕ → Option (List ℕ × ℕ × List ℕ) → Type 0
Below prefix suffix m none = Unit {0}
Below prefix suffix m (some (p, n, s)) = bytes_eq p prefix ≡ true → bytes_eq s suffix ≡ true → n ≤ m

abbrev pub AllBelow : List ℕ → List ℕ → ℕ → List (List ℕ) → Type 0
AllBelow prefix suffix m [] = Unit {0}
AllBelow prefix suffix m (l ∷ ls) =
    Below prefix suffix m (label_parts l) × AllBelow prefix suffix m ls

raise-Below :
    (prefix suffix : List ℕ) (o : Option (List ℕ × ℕ × List ℕ)) (m k : ℕ)
    → raise prefix suffix o m ≤ k
    → (m ≤ k) × Below prefix suffix k o
raise-Below prefix suffix none m k h = (h, tt)
raise-Below prefix suffix (some (p, n, s)) m k h = (ground arith, λ e f. ground arith)

highest-AllBelow :
    (prefix suffix : List ℕ) (m : ℕ) (ls : List (List ℕ))
    → (m ≤ highest prefix suffix m ls) × AllBelow prefix suffix (highest prefix suffix m ls) ls
unfolding highest
highest-AllBelow prefix suffix m [] = (omega arith, tt)
highest-AllBelow prefix suffix m (l ∷ ls) =
    let r = highest-AllBelow prefix suffix (raise prefix suffix (label_parts l) m) ls in
    let b = raise-Below prefix suffix (label_parts l) m _ r.0 in (b.0, (b.1, r.1))

-- A label of the list has the prefix, the number and the suffix.
abbrev pub SomeNumbered : List ℕ → List ℕ → ℕ → List (List ℕ) → Type 0
SomeNumbered prefix suffix n [] = ⊥
SomeNumbered prefix suffix n (l ∷ ls) =
    (label_parts l ≡ some (prefix, n, suffix)) ⊎ SomeNumbered prefix suffix n ls

same_parts :
    (prefix suffix p s : List ℕ) (n : ℕ)
    → bytes_eq p prefix ≡ true
    → bytes_eq s suffix ≡ true
    → ◌≡◌ {A = Option (List ℕ × ℕ × List ℕ)} (some (p, n, s)) (some (prefix, n, suffix))
same_parts prefix suffix p s n e f =
    ap (λ q. some (q, n, s)) (bytes_eq_sound p prefix e)
    ∙ ap (λ q. some (prefix, n, q)) (bytes_eq_sound s suffix f)

raise_from :
    (prefix suffix : List ℕ) (o : Option (List ℕ × ℕ × List ℕ)) (m : ℕ)
    → (raise prefix suffix o m ≡ m) ⊎ (o ≡ some (prefix, raise prefix suffix o m, suffix))
raise_from prefix suffix none m = inl refl
raise_from prefix suffix (some (p, n, s)) m =
    tested (bytes_eq p prefix) (bytes_eq s suffix) (ltb m n) refl refl
  where
    tested :
        (b c d : Bool)
        → bytes_eq p prefix ≡ b
        → bytes_eq s suffix ≡ c
        → ((if b && c && d then n else m) ≡ m)
          ⊎ (◌≡◌ {A = Option (List ℕ × ℕ × List ℕ)}
              (some (p, n, s))
              (some (prefix, (if b && c && d then n else m), suffix)))
    tested true true true e f = inr (same_parts prefix suffix p s n e f)
    tested true true false e f = inl refl
    tested true false d e f = inl refl
    tested false c d e f = inl refl

-- The highest number is the one it began with, or that of a label.
highest-SomeNumbered :
    (prefix suffix : List ℕ) (m : ℕ) (ls : List (List ℕ))
    → (highest prefix suffix m ls ≡ m) ⊎ SomeNumbered prefix suffix (highest prefix suffix m ls) ls
unfolding highest
highest-SomeNumbered prefix suffix m [] = inl refl
highest-SomeNumbered prefix suffix m (l ∷ ls) =
    elim (highest-SomeNumbered prefix suffix (raise prefix suffix (label_parts l) m) ls) [
      | inr later ↦ inr (inr later)
      | inl same ↦ elim (raise_from prefix suffix (label_parts l) m) [
        | inl kept ↦ inl (same ∙ kept)
        | inr here ↦ inr (inl (here ∙ ap (λ n. some (prefix, n, suffix)) (sym same)))
      ]
    ]

-- What a proposal is: the candidate with the first number, from `n`, that is not taken; or "" if all are.
pub record IsNext (known : List (List ℕ)) (prefix suffix : List ℕ) (from below : ℕ) (l : List ℕ)
    : Type 0 where
  pub number : ℕ
  pub at_least : from ≤ number
  pub under : number < below
  pub label_is : l ≡ candidate prefix suffix number
  pub unused : holds_text known l ≡ false
  pub before : (k : ℕ) → from ≤ k → k < number → holds_text known (candidate prefix suffix k) ≡ true

abbrev pub Proposed : List (List ℕ) → List ℕ → List ℕ → ℕ → ℕ → List ℕ → Type 0
Proposed known prefix suffix from below l =
    IsNext known prefix suffix from below l
    ⊎ ((l ≡ [])
        × ((k : ℕ) → from ≤ k → k < below → holds_text known (candidate prefix suffix k) ≡ true))

from_later :
    (known : List (List ℕ)) (prefix suffix : List ℕ) (n below : ℕ)
    → holds_text known (candidate prefix suffix n) ≡ true
    → ((k : ℕ) → n + 1 ≤ k → k < below → holds_text known (candidate prefix suffix k) ≡ true)
    → (k : ℕ) → n ≤ k
    → k < below
    → holds_text known (candidate prefix suffix k) ≡ true
from_later known prefix suffix n below taken later k h g = elim (Bool-cases (ltb n k)) [
  | inl above ↦ later k (ground (arith, above)) g
  | inr not_above ↦
      subst (λ j. holds_text known (candidate prefix suffix j) ≡ true) (ground (arith, not_above))
        taken
]

past_taken :
    (known : List (List ℕ)) (prefix suffix : List ℕ) (n k : ℕ) (l : List ℕ)
    → holds_text known (candidate prefix suffix n) ≡ true
    → Proposed known prefix suffix (n + 1) (n + 1 + k) l
    → Proposed known prefix suffix n (n + suc k) l
past_taken known prefix suffix n k l taken (inl r) = inl record {
  number = r.number;
  at_least = omega (arith, r.at_least);
  under = omega (arith, r.under);
  label_is = r.label_is;
  unused = r.unused;
  before = from_later known prefix suffix n r.number taken r.before;
}
past_taken known prefix suffix n k l taken (inr (none_left, all)) =
    inr (
      none_left,
      from_later known prefix suffix n (n + suc k) taken (λ j h g. all j h (omega arith)),
    )

first_label-Proposed :
    (known : List (List ℕ)) (prefix suffix : List ℕ) (k n : ℕ)
    → Proposed known prefix suffix n (n + k) (first_label k n known prefix suffix)
unfolding first_label
first_label-Proposed known prefix suffix zero n = inr (refl, λ k h g. absurd (omega arith))
first_label-Proposed known prefix suffix (suc k) n =
    elim (Bool-cases (holds_text known (candidate prefix suffix n))) [
      | inl taken ↦ rw taken (
          past_taken known prefix suffix n k _ taken
            (first_label-Proposed known prefix suffix k (n + 1)))
      | inr fresh ↦ rw fresh (
          inl record {
            number = n;
            at_least = omega arith;
            under = omega arith;
            label_is = refl;
            unused = fresh;
            before = λ j h g. absurd (omega arith);
          })
    ]

to_999 :
    (known : List (List ℕ)) (prefix suffix : List ℕ) (top : ℕ) (l : List ℕ)
    → Proposed known prefix suffix (top + 1) (top + 1 + (999 - top)) l
    → Proposed known prefix suffix (top + 1) 1000 l
to_999 known prefix suffix top l (inl r) = inl record {
  number = r.number;
  at_least = r.at_least;
  under = omega (arith, r.under, r.at_least);
  label_is = r.label_is;
  unused = r.unused;
  before = r.before;
}
to_999 known prefix suffix top l (inr (none_left, all)) =
    inr (none_left, λ k h g. all k h (omega arith))

-- `top` is the highest number of the labels that have the prefix and the suffix: none has a higher one, and it is
-- that of such a label, or 0. The proposal is the candidate with the first number from `top` + 1 to 999 that is
-- not taken; it is "" if all of them are.
pub next_label_lem :
    (known : List (List ℕ)) (prefix suffix : List ℕ)
    → let top = highest prefix suffix 0 known in
      AllBelow prefix suffix top known
      × ((top ≡ 0) ⊎ SomeNumbered prefix suffix top known)
      × Proposed known prefix suffix (top + 1) 1000 (next_label known prefix suffix)
unfolding next_label
next_label_lem known prefix suffix = (
  (highest-AllBelow prefix suffix 0 known).1,
  highest-SomeNumbered prefix suffix 0 known,
  to_999 known prefix suffix _ _ (first_label-Proposed known prefix suffix _ _),
)
