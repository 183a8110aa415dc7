-- ===== src/Prelude/Text.antt =====
-- Text as the list of its bytes, and a finite table as a list of tests.
use Prim.Native.Nat.{ℕ, zero, suc, ◌<◌, ◌+◌, ◌-◌, ◌*◌, ◌^◌, ◌/◌, ◌%◌}
use Prim.Native.Char.{code}
use Prim.Native.String.{String}
use mathlib.Core.Path.{◌≡◌, refl}
use mathlib.Core.Bool.{Bool, true, false, ◌&&◌}
use mathlib.Core.Option
use mathlib.Core.Option.{Option, none, some}
use mathlib.Core.List.{List, [], ◌∷◌, map}
use native.Mathlib.Omega.{arith}
use open_vtl.Prelude.Tests.{ltb, leb, ◌==◌, if◌then◌else◌}
use open_vtl.Prelude.Int.{ℤ, pos, negsuc, neg}

-- The bytes of a text that is ASCII: the code points of its characters.
abbrev pub ascii : String → List ℕ
ascii String.[] = []
ascii (String.◌∷◌ head tail) = code head ∷ ascii tail

-- A test that holds at 0, 1, …, k - 1.
unfoldable pub at_each : ℕ → (ℕ → Bool) → Bool
at_each zero test = true
at_each (suc k) test = at_each k test && test k

pub at_each_sound :
    (k : ℕ) (test : ℕ → Bool) (i : ℕ) → at_each k test ≡ true → i < k → test i ≡ true
unfolding at_each
at_each_sound zero test i tested below = absurd (omega arith)
at_each_sound (suc k) test i tested below = ground (arith, at_each_sound k test i)

-- strings.HasPrefix, the prefix first.
unfoldable pub starts_with : List ℕ → List ℕ → Bool
starts_with [] s = true
starts_with (x ∷ p) [] = false
starts_with (x ∷ p) (y ∷ s) = x == y && starts_with p s

abbrev pub bytes_eq : List ℕ → List ℕ → Bool
bytes_eq [] [] = true
bytes_eq (x ∷ xs) (y ∷ ys) = x == y && bytes_eq xs ys
bytes_eq [] (y ∷ ys) = false
bytes_eq (x ∷ xs) [] = false

pub bytes_eq_sound : (xs ys : List ℕ) → bytes_eq xs ys ≡ true → xs ≡ ys
bytes_eq_sound [] [] h = refl
bytes_eq_sound (x ∷ xs) (y ∷ ys) h = grind (arith, bytes_eq_sound xs ys)
bytes_eq_sound [] (y ∷ ys) h = cc
bytes_eq_sound (x ∷ xs) [] h = cc

unfoldable pub lower : ℕ → ℕ
lower c = if leb b'A' c && leb c b'Z' then c + 32 else c

-- SQLite's NOCASE: equal but for the case of ASCII letters.
unfoldable pub eq_nocase : List ℕ → List ℕ → Bool
unfolding lower
eq_nocase a b = bytes_eq (map lower a) (map lower b)

-- strconv.FormatInt, the digits of a natural number on fuel, then the sign.
digits_from : ℕ → ℕ → List ℕ → List ℕ
digits_from zero n tail = tail
digits_from (suc fuel) n tail =
    let rest = digits_from fuel (n / 10) ((b'0' + n % 10) ∷ tail) in
    if ltb n 10 then (b'0' + n) ∷ tail else rest

unfoldable pub decimal : ℕ → List ℕ
unfolding digits_from
decimal n = digits_from (n + 1) n []

unfoldable pub format_int : ℤ → List ℕ
unfolding decimal
format_int (pos n) = decimal n
format_int (negsuc n) = b'-' ∷ decimal (n + 1)

is_digit : ℕ → Bool
is_digit c = leb b'0' c && leb c b'9'

digits_value : ℕ → List ℕ → Option ℕ
unfolding is_digit
digits_value n [] = some n
digits_value n (c ∷ cs) =
    let rest = digits_value (n * 10 + (c - b'0')) cs in if is_digit c then rest else none

-- The digits, at least one, within a bound.
bounded_value : ℕ → List ℕ → Option ℕ
unfolding digits_value
bounded_value bound [] = none
bounded_value bound (c ∷ cs) = at_most bound (digits_value 0 (c ∷ cs))
  where
    at_most : ℕ → Option ℕ → Option ℕ
    at_most bound none = none
    at_most bound (some n) = if leb n bound then some n else none

-- strconv.ParseInt(s, 10, 64): a sign, digits, the range of an int64.
unfoldable pub parse_int : List ℕ → Option ℤ
unfolding bounded_value
parse_int [] = none
parse_int (c ∷ cs) =
    if c == b'-'
    then Option.map neg (bounded_value (2 ^ 63) cs)
    else (if c == b'+'
        then Option.map pos (bounded_value (2 ^ 63 - 1) cs)
        else Option.map pos (bounded_value (2 ^ 63 - 1) (c ∷ cs)))
