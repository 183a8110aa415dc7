-- ===== src/License/Layout.antt =====
-- What `Valid` of openvtld/internal/license/fingerprint.go answers on a key of twenty symbols.
use mathlib.Core.List.{map, map-append}
use native.Mathlib.Nat.{add-zero}
use mathlib.Core.Path.{ap₂}
use open_vtl.Prelude.Text.{at_each, at_each_sound}
use open_vtl.Prelude.{
  ℕ, zero, suc, ◌+◌, ◌*◌, ◌≤◌, ◌<◌, ◌≡◌, refl, Bool, true, false, Option, none, some, List, [], ◌∷◌,
  ◌++◌, append-nil, append_assoc, arith, ap, sym, ◌∙◌, length, length-take, length-drop,
  take-append-drop, take, drop, ◌==◌,
}
use open_vtl.License.{symbol, index_byte, is_dash_place, body_from, dash, groups}

is_index : Option ℕ → ℕ → Bool
is_index none v = false
is_index (some i) v = i == v

symbols_table : at_each 32 (λ v. is_index (index_byte (symbol v)) v) ≡ true
unfolding at_each is_index index_byte symbol
symbols_table = refl

is_index_sound : (o : Option ℕ) (v : ℕ) → is_index o v ≡ true → o ≡ some v
unfolding is_index
is_index_sound none v h = cc
is_index_sound (some i) v h = ground arith

-- Each of the 32 symbols has its own index.
pub index_byte-symbol : (v : ℕ) → v < 32 → index_byte (symbol v) ≡ some v
index_byte-symbol v h = is_index_sound _ v (at_each_sound 32 _ v symbols_table h)

pub symbol_injective : (a b : ℕ) → a < 32 → b < 32 → symbol a ≡ symbol b → a ≡ b
symbol_injective a b ha hb e = some_inj (cc (index_byte-symbol a ha, index_byte-symbol b hb, e))
  where
    some_inj : {x y : ℕ} → some x ≡ some y → x ≡ y
    some_inj p = cc

abbrev pub AreValues : List ℕ → Type 0
AreValues [] = Unit
AreValues (v ∷ vs) = (v < 32) × AreValues vs

pub AreValues-take : (n : ℕ) (vs : List ℕ) → AreValues vs → AreValues (take n vs)
AreValues-take zero vs h = tt
AreValues-take (suc n) [] h = tt
AreValues-take (suc n) (v ∷ vs) h = (h.0, AreValues-take n vs h.1)

AreValues-drop : (n : ℕ) (vs : List ℕ) → AreValues vs → AreValues (drop n vs)
AreValues-drop zero vs h = h
AreValues-drop (suc n) [] h = tt
AreValues-drop (suc n) (v ∷ vs) h = AreValues-drop n vs h.1

pub take-map : (n : ℕ) (vs : List ℕ) → take n (map symbol vs) ≡ map symbol (take n vs)
take-map zero vs = refl
take-map (suc n) [] = refl
take-map (suc n) (v ∷ vs) = cc (take-map n vs)

pub drop-map : (n : ℕ) (vs : List ℕ) → drop n (map symbol vs) ≡ map symbol (drop n vs)
drop-map zero vs = refl
drop-map (suc n) [] = refl
drop-map (suc n) (v ∷ vs) = drop-map n vs

dash_place : (k : ℕ) → k < 4 → is_dash_place (4 + 6 * k) ≡ true
unfolding is_dash_place
dash_place k h = ground arith

plain_place : (k j : ℕ) → k < 4 → 4 + 6 * k + 1 ≤ j → j < 4 + 6 * k + 6 → is_dash_place j ≡ false
unfolding is_dash_place
plain_place k j h l m = ground arith

body_from-symbol :
    (i v c : ℕ) (cs body : List ℕ)
    → is_dash_place i ≡ false
    → index_byte c ≡ some v
    → body_from i (c ∷ cs) body ≡ body_from (i + 1) cs (body ++ c ∷ [])
unfolding body_from
body_from-symbol i v c cs body plain found = rw (plain, found)

body_from-dash :
    (i : ℕ) (cs body : List ℕ)
    → is_dash_place i ≡ true
    → body_from i (dash ∷ cs) body ≡ body_from (i + 1) cs body
unfolding body_from
body_from-dash i cs body place = rw place

-- A run of symbols between two dashes is taken over into the body.
body_from-symbols :
    (i : ℕ) (vs rest body : List ℕ)
    → AreValues vs
    → ((j : ℕ) → i ≤ j → j < i + length vs → is_dash_place j ≡ false)
    → body_from i (map symbol vs ++ rest) body
      ≡ body_from (i + length vs) rest (body ++ map symbol vs)
body_from-symbols i [] rest body h plain = rw (append-nil, add-zero)
body_from-symbols i (v ∷ vs) rest body h plain =
    body_from-symbol i v (symbol v) (map symbol vs ++ rest) body
      (plain i (omega arith) (omega arith)) (index_byte-symbol v h.0)
    ∙ body_from-symbols (i + 1) vs rest (body ++ symbol v ∷ []) h.1
        (λ j l m. plain j (omega arith) (omega arith))
    ∙ ap₂ (λ n b. body_from n rest b) (omega arith)
        (append_assoc body (symbol v ∷ []) (map symbol vs))

-- A dash and five symbols, in the k-th group.
pub body_from-groups :
    (k n : ℕ) (vs body : List ℕ)
    → AreValues vs
    → k + n ≡ 4
    → length vs ≡ 5 * n
    → body_from (4 + 6 * k) (groups n (map symbol vs)) body ≡ some (body ++ map symbol vs)
unfolding groups
body_from-groups k zero [] body h place len = unfold body_from in rw append-nil
body_from-groups k zero (v ∷ vs) body h place len = absurd (omega arith)
body_from-groups k (suc n) vs body h place len =
    body_from-dash (4 + 6 * k) _ body (dash_place k (omega arith))
    ∙ ap₂ (λ a b. body_from (4 + 6 * k + 1) (a ++ groups n b) body) (take-map 5 vs) (drop-map 5 vs)
    ∙ body_from-symbols (4 + 6 * k + 1) (take 5 vs) _ body (AreValues-take 5 vs h)
        (λ j l m. plain_place k j (omega arith) l (omega (arith, length-take 5 vs)))
    ∙ ap (λ i. body_from i (groups n (map symbol (drop 5 vs))) (body ++ map symbol (take 5 vs)))
        (omega (arith, length-take 5 vs))
    ∙ body_from-groups (k + 1) n (drop 5 vs) (body ++ map symbol (take 5 vs))
        (AreValues-drop 5 vs h) (omega arith) (omega (arith, length-drop 5 vs))
    ∙ ap some (
        append_assoc body (map symbol (take 5 vs)) (map symbol (drop 5 vs))
        ∙ ap (λ t. body ++ t)
            (sym (map-append symbol (take 5 vs) (drop 5 vs))
              ∙ ap (map symbol) (take-append-drop 5 vs)))
