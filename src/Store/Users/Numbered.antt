-- ===== src/Store/Users/Numbered.antt =====
-- The order of the ids in the user table of openvtld/internal/store/auth.go, which AUTOINCREMENT gives,
-- and changes of the row with one id.
use open_vtl.Prelude.{
  ℕ, suc, ◌+◌, ◌≤◌, ◌<◌, ◌≡◌, refl, sym, ap, ◌∙◌, Bool, true, false, Bool-cases, inl, inr, some,
  List, [], ◌∷◌, ◌++◌, arith, if◌then◌else◌, ℤ, pos, int_eq, int_eq_sound, find, remove_rows,
  update_rows, count_rows,
}
use open_vtl.Store.{User}
use open_vtl.Store.Users.{has_id}

-- The ids ascend from `low` and stay below `high`.
unfoldable pub Numbered : ℕ → List User → ℕ → Type 0
Numbered low [] high = low ≤ high
Numbered low (u ∷ us) high = (k : ℕ) × (u.id ≡ pos k) × (low ≤ k) × Numbered (suc k) us high

pub Numbered-insert :
    (us : List User) (low high : ℕ) (u : User)
    → Numbered low us high
    → u.id ≡ pos high
    → Numbered low (us ++ u ∷ []) (high + 1)
unfolding Numbered
Numbered-insert [] low high u n e = (_, e, n, omega arith)
Numbered-insert (v ∷ us) low high u (k, i, l, n) e = (k, i, l, Numbered-insert us _ _ u n e)

pub Numbered-update :
    (test : User → Bool) (change : User → User)
    → ((u : User) → (change u).id ≡ u.id)
    → (us : List User) (low high : ℕ) → Numbered low us high
    → Numbered low (update_rows test change us) high
unfolding Numbered update_rows
Numbered-update test change same [] low high n = n
Numbered-update test change same (u ∷ us) low high (k, i, l, n) =
    (k, same_id (test u) ∙ i, l, Numbered-update test change same us _ _ n)
  where
    same_id : (b : Bool) → (if b then change u else u).id ≡ u.id
    same_id true = same u
    same_id false = refl

Numbered-lower :
    (us : List User) (low low' high : ℕ) → low ≤ low' → Numbered low' us high → Numbered low us high
unfolding Numbered
Numbered-lower [] low low' high h n = omega arith
Numbered-lower (u ∷ us) low low' high h (k, i, l, n) = (k, i, omega arith, n)

pub Numbered-remove :
    (test : User → Bool) (us : List User) (low high : ℕ)
    → Numbered low us high
    → Numbered low (remove_rows test us) high
unfolding Numbered remove_rows
Numbered-remove test [] low high n = n
Numbered-remove test (u ∷ us) low high (k, i, l, n) = keep (test u) (Numbered-remove test us _ _ n)
  where
    keep :
        (b : Bool)
        → Numbered (suc k) (remove_rows test us) high
        → Numbered low (if b then remove_rows test us else u ∷ remove_rows test us) high
    keep true m = Numbered-lower (remove_rows test us) low (suc k) high (omega arith) m
    keep false m = (k, i, l, m)

pos-differ : (a b : ℕ) → a < b → int_eq (pos b) (pos a) ≡ false
pos-differ a b h = ground arith

-- Above an id there is no row with it.
update_absent :
    (change : User → User) (us : List User) (low high : ℕ) (j : ℕ)
    → Numbered low us high
    → j < low
    → update_rows (has_id (pos j)) change us ≡ us
unfolding Numbered update_rows
update_absent change [] low high j n h = refl
update_absent change (u ∷ us) low high j (k, i, l, n) h =
    rw (i, pos-differ j k (omega arith), update_absent change us (suc k) high j n (omega arith))

remove_absent :
    (us : List User) (low high : ℕ) (j : ℕ)
    → Numbered low us high
    → j < low
    → remove_rows (has_id (pos j)) us ≡ us
unfolding Numbered remove_rows
remove_absent [] low high j n h = refl
remove_absent (u ∷ us) low high j (k, i, l, n) h =
    rw (i, pos-differ j k (omega arith), remove_absent us (suc k) high j n (omega arith))

-- What a row adds to a count.
abbrev pub one : Bool → ℕ
one b = if b then 1 else 0

some_inj : {u v : User} → some u ≡ some v → u ≡ v
some_inj e = cc

pub count-update :
    (test : User → Bool) (change : User → User) (id : ℤ) (us : List User) (low high : ℕ) {u : User}
    → Numbered low us high
    → find (has_id id) us ≡ some u
    → count_rows test (update_rows (has_id id) change us) + one (test u)
      ≡ count_rows test us + one (test (change u))
unfolding Numbered update_rows count_rows find
count-update test change id [] low high n e = cc
count-update test change id (v ∷ us) low high {u = u} (k, i, l, n) e =
    elim (Bool-cases (int_eq v.id id)) [
      | inl same ↦
          let at_k : pos k ≡ id = sym i ∙ int_eq_sound v.id id same in
          let is_u : v ≡ u = some_inj (sym (rw same) ∙ e) in
          let rest : update_rows (has_id id) change us ≡ us =
            ap (λ x. update_rows (has_id x) change us) (sym at_k)
            ∙ update_absent change us (suc k) high k n (omega arith) in
          rw (same, is_u, rest) (omega arith)
      | inr other ↦
          let later : find (has_id id) us ≡ some u = sym (rw other) ∙ e in
          rw other (omega (arith, count-update test change id us _ _ n later))
    ]

pub count-remove :
    (test : User → Bool) (id : ℤ) (us : List User) (low high : ℕ) {u : User}
    → Numbered low us high
    → find (has_id id) us ≡ some u
    → count_rows test (remove_rows (has_id id) us) + one (test u) ≡ count_rows test us
unfolding Numbered remove_rows count_rows find
count-remove test id [] low high n e = cc
count-remove test id (v ∷ us) low high {u = u} (k, i, l, n) e = elim (Bool-cases (int_eq v.id id)) [
  | inl same ↦
      let at_k : pos k ≡ id = sym i ∙ int_eq_sound v.id id same in
      let is_u : v ≡ u = some_inj (sym (rw same) ∙ e) in
      let rest : remove_rows (has_id id) us ≡ us =
        ap (λ x. remove_rows (has_id x) us) (sym at_k)
        ∙ remove_absent us (suc k) high k n (omega arith) in
      rw (same, is_u, rest) (omega arith)
  | inr other ↦
      let later : find (has_id id) us ≡ some u = sym (rw other) ∙ e in
      rw other (omega (arith, count-remove test id us _ _ n later))
]

pub count-append :
    (test : User → Bool) (us : List User) (u : User)
    → count_rows test (us ++ u ∷ []) ≡ count_rows test us + one (test u)
unfolding count_rows
count-append test [] u = omega arith
count-append test (v ∷ us) u = omega (arith, count-append test us u)
