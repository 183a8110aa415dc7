-- ===== src/Orchestrate/Targets/Bindings.antt =====
-- What verifyFC of openvtld/internal/orchestrate/fc.go finds in a port's table of LUNs.
use open_vtl.Prelude.Text.{bytes_eq, bytes_eq_sound}
use open_vtl.Prelude.Words.{bytes_eq_refl}
use open_vtl.Prelude.{
  ℕ, zero, suc, ◌+◌, ◌≡◌, ◌≢◌, refl, sym, ◌∙◌, ap, subst, ◌⊎◌, inl, inr, true, false, not, Option,
  none, some, List, [], ◌∷◌, ◌==◌, arith, Bool-cases, true_is_not_false, length, get_elem?,
}
use mathlib.Core.Option.{some-injective}
use open_vtl.Orchestrate.Luns.{Binding}
use open_vtl.Orchestrate.Targets.{
  Verdict, failing, bound_to, wrong_lun, first_or, table_fault, extra_luns,
}

-- Each LUN has its device, and there are no others.
abbrev pub IsBound : List Binding → List (ℕ × List ℕ) → Type 0
IsBound want got =
    ((lun : ℕ) (b : Binding) → get_elem? want lun ≡ some b → bound_to lun got ≡ b.dev)
    × (length got ≡ length want)

-- Some LUN has another device, or their number is not that expected.
abbrev pub IsMisbound : List Binding → List (ℕ × List ℕ) → Type 0
IsMisbound want got =
    ((lun : ℕ) × (b : Binding) × (get_elem? want lun ≡ some b) × (bound_to lun got ≢ b.dev))
    ⊎ (length got ≢ length want)

first_bound :
    (port : List ℕ) (k : ℕ) (got : List (ℕ × List ℕ)) (c : Binding) (cs : List Binding)
    → wrong_lun port k got (c ∷ cs) ≡ none
    → (bound_to k got ≡ c.dev) × (wrong_lun port (k + 1) got cs ≡ none)
unfolding wrong_lun
first_bound port k got c cs none_wrong = elim (Bool-cases (bytes_eq (bound_to k got) c.dev)) [
  | inl same ↦ (bytes_eq_sound _ _ same, rw same at none_wrong)
  | inr other ↦ absurd (some_not_none (rw other at none_wrong))
]
  where
    some_not_none : {v : Verdict} → some v ≡ none → ⊥
    some_not_none e = cc

all_bound :
    (port : List ℕ) (k : ℕ) (got : List (ℕ × List ℕ)) (want : List Binding)
    → wrong_lun port k got want ≡ none
    → (lun : ℕ) (b : Binding) → get_elem? want lun ≡ some b
    → bound_to (k + lun) got ≡ b.dev
all_bound port k got [] none_wrong lun b e = cc
all_bound port k got (c ∷ cs) none_wrong zero b e =
    subst (λ n. bound_to n got ≡ b.dev) (sym (k_zero k))
      ((first_bound port k got c cs none_wrong).0
        ∙ ap (λ (x : Binding). x.dev) (some-injective c b e))
  where
    k_zero : (n : ℕ) → n + 0 ≡ n
    k_zero n = omega arith
all_bound port k got (c ∷ cs) none_wrong (suc lun) b e =
    subst (λ n. bound_to n got ≡ b.dev) (shift k lun)
      (all_bound port (k + 1) got cs (first_bound port k got c cs none_wrong).1 lun b e)
  where
    shift : (n i : ℕ) → n + 1 + i ≡ n + suc i
    shift n i = omega arith

zero_add : (n : ℕ) → 0 + n ≡ n
zero_add n = omega arith

soft_is_not_hard : (u v : Verdict) → some u ≡ some v → u.hard ≡ false → v.hard ≡ true → ⊥
soft_is_not_hard u v e soft hard = cc (ap (λ (x : Verdict). x.hard) (some-injective u v e))

not_ok_of : (u v : Verdict) → some u ≡ some v → u.is_ok ≡ false → v.is_ok ≡ false
not_ok_of u v e h = cc (ap (λ (x : Verdict). x.is_ok) (some-injective u v e))

none_not_some : {v : Verdict} → none ≡ some v → ⊥
none_not_some e = cc

-- What `wrong_lun` reports is a LUN of the table with another device.
one_misbound :
    (port : List ℕ) (k : ℕ) (got : List (ℕ × List ℕ)) (want : List Binding) (v : Verdict)
    → wrong_lun port k got want ≡ some v
    → (lun : ℕ) × (b : Binding) × (get_elem? want lun ≡ some b) × (bound_to (k + lun) got ≢ b.dev)
unfolding wrong_lun
one_misbound port k got [] v e = absurd (cc)
one_misbound port k got (c ∷ cs) v e = elim (Bool-cases (bytes_eq (bound_to k got) c.dev)) [
  | inl same ↦ later (one_misbound port (k + 1) got cs v (rw same at e))
  | inr other ↦ (0, c, refl, λ eq. apart (subst (λ n. bound_to n got ≡ c.dev) (k_zero k) eq) other)
]
  where
    k_zero : (n : ℕ) → n + 0 ≡ n
    k_zero n = omega arith

    shift : (n i : ℕ) → n + suc i ≡ n + 1 + i
    shift n i = omega arith

    apart : bound_to k got ≡ c.dev → bytes_eq (bound_to k got) c.dev ≡ false → ⊥
    apart eq other =
        true_is_not_false
          (sym (subst (λ s. bytes_eq s c.dev ≡ true) (sym eq) (bytes_eq_refl c.dev)) ∙ other)

    later :
        ((lun : ℕ) × (b : Binding) × (get_elem? cs lun ≡ some b)
          × (bound_to (k + 1 + lun) got ≢ b.dev))
        → (lun : ℕ) × (b : Binding) × (get_elem? (c ∷ cs) lun ≡ some b)
          × (bound_to (k + lun) got ≢ b.dev)
    later (lun, b, found, wrong) =
        (suc lun, b, found, λ eq. wrong (subst (λ n. bound_to n got ≡ b.dev) (shift k lun) eq))

module _ (want : List Binding) where
  -- What a port's checks come to, by its table.
  pub table_fault-IsBound :
      (port : List ℕ) (o : Option (List (ℕ × List ℕ)))
      → table_fault port want o ≡ none
      → (got : List (ℕ × List ℕ)) × (o ≡ some got) × IsBound want got
  unfolding table_fault
  table_fault-IsBound port none e = absurd (cc)
  table_fault-IsBound port (some got) e = go (wrong_lun port 0 got want) refl e
    where
      go :
          (r : Option Verdict)
          → wrong_lun port 0 got want ≡ r
          → first_or
              (failing (extra_luns port (length got) (length want)) true)
              (not (length got == length want))
              r
            ≡ none
          → (g : List (ℕ × List ℕ)) × (some got ≡ some g) × IsBound want g
      go (some v) found h = absurd (cc)
      go none found h = (
        got,
        refl,
        (
          λ lun b at_lun.
              subst (λ n. bound_to n got ≡ b.dev) (zero_add lun)
                (all_bound port 0 got want found lun b at_lun),
          ground arith,
        ),
      )

  pub table_fault-IsMisbound :
      (port : List ℕ) (o : Option (List (ℕ × List ℕ))) (v : Verdict)
      → table_fault port want o ≡ some v
      → v.hard ≡ true
      → (got : List (ℕ × List ℕ)) × (o ≡ some got) × IsMisbound want got
  unfolding table_fault
  table_fault-IsMisbound port none v e hard = absurd (soft_is_not_hard _ v e refl hard)
  table_fault-IsMisbound port (some got) v e hard = go (wrong_lun port 0 got want) refl e
    where
      misbound_at :
          ((lun : ℕ) × (b : Binding) × (get_elem? want lun ≡ some b)
            × (bound_to (0 + lun) got ≢ b.dev))
          → IsMisbound want got
      misbound_at (lun, b, found, wrong) =
          inl (
            lun,
            b,
            found,
            λ eq. wrong (subst (λ n. bound_to n got ≡ b.dev) (sym (zero_add lun)) eq),
          )

      go :
          (r : Option Verdict)
          → wrong_lun port 0 got want ≡ r
          → first_or
              (failing (extra_luns port (length got) (length want)) true)
              (not (length got == length want))
              r
            ≡ some v
          → (g : List (ℕ × List ℕ)) × (some got ≡ some g) × IsMisbound want g
      go (some u) found h = (got, refl, misbound_at (one_misbound port 0 got want u found))
      go none found h = (got, refl, inr (ground arith))

  wrong_not_ok :
      (port : List ℕ) (k : ℕ) (got : List (ℕ × List ℕ)) (bs : List Binding) (v : Verdict)
      → wrong_lun port k got bs ≡ some v
      → v.is_ok ≡ false
  unfolding wrong_lun
  wrong_not_ok port k got [] v e = absurd (cc)
  wrong_not_ok port k got (b ∷ bs) v e = elim (Bool-cases (bytes_eq (bound_to k got) b.dev)) [
    | inl same ↦ wrong_not_ok port (k + 1) got bs v (rw same at e)
    | inr other ↦ not_ok_of _ v (rw other at e) refl
  ]

  pub table_fault_not_ok :
      (port : List ℕ) (o : Option (List (ℕ × List ℕ))) (v : Verdict)
      → table_fault port want o ≡ some v
      → v.is_ok ≡ false
  unfolding table_fault
  table_fault_not_ok port none v e = not_ok_of _ v e refl
  table_fault_not_ok port (some got) v e = go (wrong_lun port 0 got want) refl e
    where
      go :
          (r : Option Verdict)
          → wrong_lun port 0 got want ≡ r
          → first_or
              (failing (extra_luns port (length got) (length want)) true)
              (not (length got == length want))
              r
            ≡ some v
          → v.is_ok ≡ false
      go (some u) found h = wrong_not_ok port 0 got want v (found ∙ h)
      go none found h = elim (Bool-cases (length got == length want)) [
        | inl same ↦ absurd (none_not_some (rw same at h))
        | inr other ↦ not_ok_of _ v (rw other at h) refl
      ]
