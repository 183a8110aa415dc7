-- ===== src/Prelude/Rows.antt =====
-- A table as the list of its rows: what SELECT, UPDATE, DELETE and COUNT do to it.
use Prim.Native.Nat.{ℕ, ◌+◌}
use mathlib.Core.Bool.{Bool}
use mathlib.Core.Option.{Option, none, some}
use mathlib.Core.List.{List, [], ◌∷◌}
use open_vtl.Prelude.Tests.{if◌then◌else◌}

module _ {A : Type 0} where
  -- SELECT … WHERE: the first row.
  unfoldable pub find : (A → Bool) → List A → Option A
  find test [] = none
  find test (x ∷ xs) = if test x then some x else find test xs

  -- DELETE … WHERE
  unfoldable pub remove_rows : (A → Bool) → List A → List A
  remove_rows test [] = []
  remove_rows test (x ∷ xs) = let rest = remove_rows test xs in if test x then rest else x ∷ rest

  -- UPDATE … WHERE
  unfoldable pub update_rows : (A → Bool) → (A → A) → List A → List A
  update_rows test change [] = []
  update_rows test change (x ∷ xs) = (if test x then change x else x) ∷ update_rows test change xs

  -- SELECT COUNT(*) … WHERE, and the rows that an UPDATE or a DELETE affects
  unfoldable pub count_rows : (A → Bool) → List A → ℕ
  count_rows test [] = 0
  count_rows test (x ∷ xs) = (if test x then 1 else 0) + count_rows test xs
