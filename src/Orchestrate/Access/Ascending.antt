-- ===== src/Orchestrate/Access/Ascending.antt =====
-- The LUNs that openvtld/internal/orchestrate/fc.go maps for an initiator: in ascending order, so that
-- sorting them changes nothing.
use open_vtl.Prelude.Distinct.{Ascends, Ascends-weaken, Under}
use open_vtl.Prelude.{
  ℕ, ◌+◌, ◌≤◌, ◌≡◌, refl, true, List, [], ◌∷◌, ◌++◌, Bool-cases, inl, inr, arith, ℤ,
}
use open_vtl.Store.Acls.{Scope}
use open_vtl.Orchestrate.Luns.{Binding, in_library_scope, mapped_from}
use open_vtl.Orchestrate.Access.{insert_int, equal_ints}

pub Under-last : (k n : ℕ) (ms : List ℕ) → k ≤ n → Under k ms → Under (n + 1) (ms ++ n ∷ [])
Under-last k n [] h u = (omega arith, tt)
Under-last k n (m ∷ ms) h u = (omega arith, Under-last k n ms h u.1)

pub insert_last : (k n : ℕ) (ms : List ℕ) → k ≤ n → Under k ms → insert_int n ms ≡ ms ++ n ∷ []
unfolding insert_int
insert_last k n [] h u = refl
insert_last k n (m ∷ ms) h u = ground (arith, insert_last k n ms h u.1)

pub mapped_from-Ascends :
    (lun : ℕ) (want : List Binding) (scope : Scope ℤ) → Ascends lun (mapped_from lun want scope)
unfolding mapped_from
mapped_from-Ascends lun [] scope = tt
mapped_from-Ascends lun (b ∷ bs) scope = elim (Bool-cases (in_library_scope scope b.lib)) [
  | inl seen ↦ rw seen (omega arith, mapped_from-Ascends (lun + 1) bs scope)
  | inr hidden ↦
      rw hidden
        (Ascends-weaken lun (lun + 1) _ (omega arith) (mapped_from-Ascends (lun + 1) bs scope))
]

pub equal_ints_sound : (xs ys : List ℕ) → equal_ints xs ys ≡ true → xs ≡ ys
unfolding equal_ints
equal_ints_sound [] [] h = refl
equal_ints_sound (x ∷ xs) (y ∷ ys) h = ground (arith, equal_ints_sound xs ys)
equal_ints_sound [] (y ∷ ys) h = cc
equal_ints_sound (x ∷ xs) [] h = cc

pub equal_ints_refl : (xs : List ℕ) → equal_ints xs xs ≡ true
unfolding equal_ints
equal_ints_refl [] = refl
equal_ints_refl (x ∷ xs) = ground (arith, equal_ints_refl xs)
