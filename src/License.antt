-- ===== src/License.antt =====
-- openvtld/internal/license/fingerprint.go: the support key. SHA-256 and the files of the host are
-- parameters; texts are lists of bytes.
pub mod Layout
pub mod Checksum
pub mod Typos
use open_vtl.Prelude.Text.{ascii, starts_with}
use open_vtl.Prelude.{
  ℕ, zero, suc, ◌+◌, ◌*◌, ◌%◌, Bool, true, false, Option, none, some, List, [], ◌∷◌, ◌++◌, length,
  take, drop, get_or, ltb, ◌==◌, ◌||◌, not, ◌&&◌, if◌then◌else◌,
}

-- The Crockford base32 alphabet.
abbrev pub crockford : List ℕ
crockford = ascii "0123456789ABCDEFGHJKMNPQRSTVWXYZ"

abbrev pub dash : ℕ
dash = b'-'

-- crockford[idx]; the code only indexes below 32.
unfoldable pub symbol : ℕ → ℕ
symbol idx = get_or crockford idx 0

-- strings.IndexByte; `none` is -1.
index_from : ℕ → List ℕ → ℕ → Option ℕ
index_from i [] c = none
index_from i (x ∷ xs) c = if x == c then some i else index_from (i + 1) xs c

unfoldable pub index_byte : ℕ → Option ℕ
unfolding index_from
index_byte c = index_from 0 crockford c

-- The loop of `format` over the bytes from position `i` on: the symbols, and the weighted sum.
collect : ℕ → List ℕ → List ℕ × ℕ
collect i [] = ([], 0)
collect i (b ∷ bytes) =
    let idx = b % 32 in
    let (symbols, weighted) = collect (i + 1) bytes in
    (symbol idx ∷ symbols, (i + 1) * idx + weighted)

pub groups : ℕ → List ℕ → List ℕ
groups zero symbols = []
groups (suc n) symbols = dash ∷ (take 5 symbols ++ groups n (drop 5 symbols))

-- OVTL-XXXXX-XXXXX-XXXXX-XXXXX of twenty symbols.
unfoldable pub layout : List ℕ → List ℕ
unfolding groups
layout symbols = ascii "OVTL" ++ groups 4 symbols

-- A sum of fewer than 19 bytes would panic; SHA-256 has 32.
unfoldable pub format : List ℕ → Option (List ℕ)
unfolding collect
format sum =
    if ltb (length sum) 19
    then none
    else (let (symbols, weighted) = collect 0 (take 19 sum) in
        some (layout (symbols ++ symbol (weighted % 32) ∷ [])))

module _ (sha256 : List ℕ → List ℕ) where
  -- derive: the bytes that are hashed, with their separators.
  pub derive : List ℕ → List ℕ → Option (List ℕ)
  derive machine_id board =
      format (sha256 (ascii "openvtl-license-v1" ++ 0 ∷ (machine_id ++ 0 ∷ board)))

-- The positions of the dashes in a key.
unfoldable pub is_dash_place : ℕ → Bool
is_dash_place i = i == 4 || i == 10 || i == 16 || i == 22

is_symbol : Option ℕ → Bool
is_symbol none = false
is_symbol (some i) = true

-- The loop of `Valid` over the bytes from position `i` on; `none` is `return false`.
pub body_from : ℕ → List ℕ → List ℕ → Option (List ℕ)
unfolding is_symbol
body_from i [] body = some body
body_from i (c ∷ cs) body =
    let after_dash = body_from (i + 1) cs body in
    let after_symbol = body_from (i + 1) cs (body ++ c ∷ []) in
    if is_dash_place i
    then (if c == dash then after_dash else none)
    else (if is_symbol (index_byte c) then after_symbol else none)

-- The index of a symbol that the loop has checked, so never -1.
abbrev value_of : Option ℕ → ℕ
value_of none = 0
value_of (some i) = i

-- The weighted sum of the symbols from position `i` on.
weigh : ℕ → List ℕ → ℕ
weigh i [] = 0
weigh i (c ∷ cs) = (i + 1) * value_of (index_byte c) + weigh (i + 1) cs

has_checksum : Option (List ℕ) → Bool
unfolding weigh
has_checksum none = false
has_checksum (some body) =
    length body == 20 && symbol (weigh 0 (take 19 body) % 32) == get_or body 19 0

unfoldable pub is_valid : List ℕ → Bool
unfolding body_from has_checksum starts_with
is_valid key =
    if not (length key == 28) || not (starts_with (ascii "OVTL-") key)
    then false
    else has_checksum (body_from 4 (drop 4 key) [])
