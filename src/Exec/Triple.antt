-- ===== src/Exec/Triple.antt =====
-- Triples: from a state with `P`, the call ends with `Q` of its value or with `R` of its exit.
use open_vtl.Prelude.{Bool, true, false, ◌≡◌, refl, Option, none, some, if◌then◌else◌}
use open_vtl.Exec.{
  Result, ok, err, Exec, ◌>>=◌, ◌>>◌, pure, exit, exit_if, or_exit, on_error, observe, then_run,
}
use open_vtl.Exec.{handle_run}
use open_vtl.Exec.{observe_run}

module _ {S : Type 0} where
  abbrev pub Ends : {E A : Type 0} → (A → S → Type 0) → (E → S → Type 0) → Result E A × S → Type 0
  Ends Q R (ok a, s) = Q a s
  Ends Q R (err e, s) = R e s

  pub record Triple {E A : Type 0} (P : S → Type 0) (m : Exec S E A) (Q : A → S → Type 0)
      (R : E → S → Type 0) : Type 0 where
    pub at : (s : S) → P s → Ends Q R (m s)

  module _ {P : S → Type 0} {E : Type 0} {R : E → S → Type 0} where
    pub triple_bind :
        {A B : Type 0}
        → {Q : A → S → Type 0} {Q' : B → S → Type 0} {m : Exec S E A} {f : A → Exec S E B}
        → Triple P m Q R
        → ((a : A) → Triple (Q a) (f a) Q' R)
        → Triple P (m >>= f) Q' R
    triple_bind {A = A} {Q = Q} {Q' = Q'} {m = m} {f = f} t u = record {
      at = λ s p. go (m s) (t.at s p);
    }
      where
        go : (r : Result E A × S) → Ends Q R r → Ends Q' R (then_run f r)
        go (ok a, s) q = (u a).at s q
        go (err e, s) q = q

    pub triple_seq :
        {A B : Type 0}
        → {Q : S → Type 0} {Q' : B → S → Type 0} {m : Exec S E A} {k : Exec S E B}
        → Triple P m (λ _. Q) R
        → Triple Q k Q' R
        → Triple P (m >> k) Q' R
    triple_seq t u = triple_bind t (λ _. u)

    pub triple_pure :
        {A : Type 0}
        → {Q : A → S → Type 0} (a : A) → ((s : S) → P s → Q a s)
        → Triple P (pure a) Q R
    triple_pure a h = record { at = h }

    pub triple_exit :
        {A : Type 0}
        → {Q : A → S → Type 0} (e : E) → ((s : S) → P s → R e s)
        → Triple P (exit e) Q R
    triple_exit e h = record { at = h }

    pub triple_if :
        {A : Type 0}
        → {Q : A → S → Type 0} {m k : Exec S E A} (b : Bool) → (b ≡ true → Triple P m Q R)
        → (b ≡ false → Triple P k Q R)
        → Triple P (if b then m else k) Q R
    triple_if true t u = t refl
    triple_if false t u = u refl

    pub triple_exit_if :
        {Q : Unit {0} → S → Type 0} (b : Bool) (e : E)
        → (b ≡ true → (s : S) → P s → R e s)
        → (b ≡ false → (s : S) → P s → Q tt s)
        → Triple P (exit_if b e) Q R
    unfolding exit_if
    triple_exit_if true e t u = record { at = t refl }
    triple_exit_if false e t u = record { at = u refl }

    pub triple_or_exit :
        {A : Type 0}
        → {Q : A → S → Type 0} (e : E) (o : Option A) → (o ≡ none → (s : S) → P s → R e s)
        → ((a : A) → o ≡ some a → (s : S) → P s → Q a s)
        → Triple P (or_exit e o) Q R
    unfolding or_exit
    triple_or_exit e none t u = record { at = t refl }
    triple_or_exit e (some a) t u = record { at = u a refl }

    pub triple_on_error :
        {F A : Type 0}
        → {Q : A → S → Type 0} {R' : F → S → Type 0} {m : Exec S E A} {g : E → Exec S F A}
        → Triple P m Q R
        → ((e : E) → Triple (R e) (g e) Q R')
        → Triple P (on_error g m) Q R'
    triple_on_error {A = A} {Q = Q} {R' = R'} {m = m} {g = g} t u = record {
      at = λ s p. go (m s) (t.at s p);
    }
      where
        go : (r : Result E A × S) → Ends Q R r → Ends Q R' (handle_run g r)
        go (ok a, s) q = q
        go (err e, s) q = (u e).at s q

    pub triple_observe :
        {F A : Type 0}
        → {Q : A → S → Type 0} {Q' : Result E A → S → Type 0} {R' : F → S → Type 0} {m : Exec S E A}
        → Triple P m Q R
        → ((a : A) (s : S) → Q a s → Q' (ok a) s)
        → ((e : E) (s : S) → R e s → Q' (err e) s)
        → Triple P (observe m) Q' R'
    triple_observe {A = A} {Q = Q} {Q' = Q'} {R' = R'} {m = m} t u v = record {
      at = λ s p. go (m s) (t.at s p);
    }
      where
        go : (r : Result E A × S) → Ends Q R r → Ends Q' R' (observe_run r)
        go (ok a, s) q = u a s q
        go (err e, s) q = v e s q

  pub triple_weaken :
      {E A : Type 0}
      → {P P' : S → Type 0} {Q Q' : A → S → Type 0} {R R' : E → S → Type 0} {m : Exec S E A}
      → ((s : S) → P' s → P s)
      → ((a : A) (s : S) → Q a s → Q' a s)
      → ((e : E) (s : S) → R e s → R' e s)
      → Triple P m Q R
      → Triple P' m Q' R'
  triple_weaken {E = E} {A = A} {Q = Q} {Q' = Q'} {R = R} {R' = R'} {m = m} pre q r t = record {
    at = λ s p. go (m s) (t.at s (pre s p));
  }
    where
      go : (x : Result E A × S) → Ends Q R x → Ends Q' R' x
      go (ok a, s) h = q a s h
      go (err e, s) h = r e s h

  -- A fact that names no state goes along.
  pub triple_frame :
      {E A : Type 0} {P : S → Type 0} {Q : A → S → Type 0} {R : E → S → Type 0} {m : Exec S E A}
      (F : Type 0)
      → Triple P m Q R
      → Triple (λ s. P s × F) m (λ a s. Q a s × F) R
  triple_frame {E = E} {A = A} {Q = Q} {R = R} {m = m} F t = record {
    at = λ s p. go (m s) p.1 (t.at s p.0);
  }
    where
      go : (x : Result E A × S) → F → Ends Q R x → Ends (λ a s. Q a s × F) R x
      go (ok a, s) f h = (h, f)
      go (err e, s) f h = h

  -- Whatever the call does.
  pub triple_const :
      {E A : Type 0} (F : Type 0) {m : Exec S E A} → Triple (λ s. F) m (λ a s. F) (λ e s. Unit {0})
  triple_const {E = E} {A = A} F {m = m} = record { at = λ s f. go (m s) f }
    where
      go : (x : Result E A × S) → F → Ends (λ (a : A) (s : S). F) (λ (e : E) (s : S). Unit {0}) x
      go (ok a, s) f = f
      go (err e, s) f = tt

  -- A call whose result is dropped ends no handler.
  pub triple_dropped :
      {E F A : Type 0} {P : S → Type 0} {R : F → S → Type 0} (m : Exec S E A)
      → Triple P (observe m) (λ r s. Unit {0}) R
  triple_dropped m = record { at = λ s p. tt }
