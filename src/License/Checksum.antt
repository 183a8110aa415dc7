-- ===== src/License/Checksum.antt =====
-- The checksum of the support key (openvtld/internal/license/fingerprint.go): which keys are valid,
-- and which typing mistakes it catches.
use mathlib.Core.List.{map, map-append}
use open_vtl.Prelude.{
  ℕ, zero, suc, ◌+◌, ◌*◌, ◌%◌, ◌≤◌, ◌<◌, ◌≡◌, refl, true, false, some, List, [], ◌∷◌, ◌++◌, arith,
  ap, sym, ◌∙◌, length, length-take, length-drop, length-append, take, drop, get_or, ltb, ◌==◌,
}
use open_vtl.License.{
  symbol, body_from, weigh, has_checksum, is_valid, layout, groups, format, collect,
}
use open_vtl.License.Layout.{
  AreValues, AreValues-take, take-map, index_byte-symbol, symbol_injective, body_from-groups,
}

-- The weighted sum of the values from position `i` on.
unfoldable pub weighted : ℕ → List ℕ → ℕ
weighted i [] = 0
weighted i (v ∷ vs) = (i + 1) * v + weighted (i + 1) vs

weigh-symbols : (i : ℕ) (vs : List ℕ) → AreValues vs → weigh i (map symbol vs) ≡ weighted i vs
unfolding weigh weighted
weigh-symbols i [] h = refl
weigh-symbols i (v ∷ vs) h = rw (index_byte-symbol v h.0, weigh-symbols (i + 1) vs h.1)

length-groups : (n : ℕ) (s : List ℕ) → length s ≡ 5 * n → length (groups n s) ≡ 6 * n
unfolding groups
length-groups zero s len = refl
length-groups (suc n) s len = omega (
  arith,
  length-append (take 5 s) (groups n (drop 5 s)),
  length-take 5 s,
  length-groups n (drop 5 s) (omega (arith, length-drop 5 s)),
)

length-symbols : (vs : List ℕ) → length (map symbol vs) ≡ length vs
length-symbols [] = refl
length-symbols (v ∷ vs) = ap suc (length-symbols vs)

get_or-symbols :
    (vs : List ℕ) (i : ℕ) → i < length vs → get_or (map symbol vs) i 0 ≡ symbol (get_or vs i 0)
get_or-symbols [] i h = absurd (omega arith)
get_or-symbols (v ∷ vs) zero h = refl
get_or-symbols (v ∷ vs) (suc i) h = get_or-symbols vs i (omega arith)

get_or-AreValues : (vs : List ℕ) (i : ℕ) → AreValues vs → get_or vs i 0 < 32
get_or-AreValues [] i h = omega arith
get_or-AreValues (v ∷ vs) zero h = h.0
get_or-AreValues (v ∷ vs) (suc i) h = get_or-AreValues vs i h.1

symbol-eq : (a b : ℕ) → a < 32 → b < 32 → (symbol a == symbol b) ≡ (a == b)
symbol-eq a b ha hb = ground (arith, symbol_injective a b)

is_valid-layout_body :
    (s : List ℕ) → length s ≡ 20 → is_valid (layout s) ≡ has_checksum (body_from 4 (groups 4 s) [])
unfolding is_valid layout
is_valid-layout_body s len = rw (length-groups 4 s len)

-- A key of twenty symbols is valid exactly if the last is the weighted sum of the others, modulo 32.
pub is_valid-layout :
    (vs : List ℕ)
    → length vs ≡ 20
    → AreValues vs
    → is_valid (layout (map symbol vs)) ≡ (weighted 0 (take 19 vs) % 32 == get_or vs 19 0)
unfolding has_checksum
is_valid-layout vs len h =
    is_valid-layout_body (map symbol vs) (length-symbols vs ∙ len)
    ∙ ap has_checksum (body_from-groups 0 4 vs [] h refl len)
    ∙ rw
        (
          length-symbols vs,
          len,
          take-map 19 vs,
          weigh-symbols 0 (take 19 vs) (AreValues-take 19 vs h),
          get_or-symbols vs 19 (omega arith),
        )
        (symbol-eq (weighted 0 (take 19 vs) % 32) (get_or vs 19 0) (omega arith)
          (get_or-AreValues vs 19 h))

-- The values of the bytes of a hash, as `format` reads them.
values : List ℕ → List ℕ
values [] = []
values (b ∷ bytes) = b % 32 ∷ values bytes

collect_lem :
    (i : ℕ) (bytes : List ℕ)
    → collect i bytes ≡ (map symbol (values bytes), weighted i (values bytes))
unfolding collect values weighted
collect_lem i [] = refl
collect_lem i (b ∷ bytes) = rw (collect_lem (i + 1) bytes)

values-AreValues : (bytes : List ℕ) → AreValues (values bytes)
unfolding values
values-AreValues [] = tt
values-AreValues (b ∷ bytes) = (omega arith, values-AreValues bytes)

length-values : (bytes : List ℕ) → length (values bytes) ≡ length bytes
unfolding values
length-values [] = refl
length-values (b ∷ bytes) = ap suc (length-values bytes)

pub AreValues-append : (xs ys : List ℕ) → AreValues xs → AreValues ys → AreValues (xs ++ ys)
AreValues-append [] ys h j = j
AreValues-append (x ∷ xs) ys h j = (h.0, AreValues-append xs ys h.1 j)

pub take-append : (n : ℕ) (xs ys : List ℕ) → length xs ≡ n → take n (xs ++ ys) ≡ xs
take-append zero [] ys e = refl
take-append zero (x ∷ xs) ys e = absurd (omega arith)
take-append (suc n) [] ys e = absurd (omega arith)
take-append (suc n) (x ∷ xs) ys e = ap (λ t. x ∷ t) (take-append n xs ys (omega arith))

pub get_or-append : (n v : ℕ) (xs ys : List ℕ) → length xs ≡ n → get_or (xs ++ v ∷ ys) n 0 ≡ v
get_or-append zero v [] ys e = refl
get_or-append zero v (x ∷ xs) ys e = absurd (omega arith)
get_or-append (suc n) v [] ys e = absurd (omega arith)
get_or-append (suc n) v (x ∷ xs) ys e = get_or-append n v xs ys (omega arith)

with_check : List ℕ → List ℕ
with_check vs = vs ++ weighted 0 vs % 32 ∷ []

with_check-is_valid :
    (vs : List ℕ)
    → length vs ≡ 19
    → AreValues vs
    → is_valid (layout (map symbol (with_check vs))) ≡ true
unfolding with_check
with_check-is_valid vs len h =
    let check = weighted 0 vs % 32 in
    is_valid-layout (vs ++ check ∷ []) (omega (arith, length-append vs (check ∷ [])))
      (AreValues-append vs (check ∷ []) h (omega arith, tt))
    ∙ rw (take-append 19 vs (check ∷ []) len, get_or-append 19 check vs [] len) (ground arith)

format_lem :
    (sum : List ℕ)
    → 19 ≤ length sum
    → format sum ≡ some (layout (map symbol (with_check (values (take 19 sum)))))
unfolding format with_check
format_lem sum long =
    let enough : ltb (length sum) 19 ≡ false = ground arith in
    let vs = values (take 19 sum) in
    rw (enough, collect_lem 0 (take 19 sum))
      (ap (λ s. some (layout s)) (sym (map-append symbol vs (weighted 0 vs % 32 ∷ []))))

-- Every hash of at least 19 bytes has a key, and `Valid` accepts it.
pub format-is_valid :
    (sum : List ℕ)
    → 19 ≤ length sum
    → (key : List ℕ) × (format sum ≡ some key) × (is_valid key ≡ true)
format-is_valid sum long =
    let bytes = take 19 sum in
    let vs = values bytes in
    let len : length vs ≡ 19 = omega (arith, length-values bytes, length-take 19 sum) in
    (
      layout (map symbol (with_check vs)),
      format_lem sum long,
      with_check-is_valid vs len (values-AreValues bytes),
    )
