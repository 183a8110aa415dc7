-- ===== src/Orchestrate/Apply/Ordered.antt =====
-- The order of ApplyLibraries in openvtld/internal/orchestrate/apply.go: what precedes the restart.
use open_vtl.Prelude.Text.{bytes_eq_sound}
use open_vtl.Prelude.{
  ℕ, ◌≡◌, refl, sym, ◌∙◌, ap, ◌⊎◌, inl, inr, eq_iff, Bool, true, false, Option, none, some, List,
  [], ◌∷◌, ◌++◌, append-nil, append_assoc, arith, Bool-cases, Option-cases, if◌then◌else◌,
}
use open_vtl.Exec.{◌>>=◌, ◌>>◌}
use open_vtl.Exec.Triple.{Triple, Ends, triple_seq, triple_pure, triple_weaken}
use open_vtl.Store.{Env}
use open_vtl.Inventory.Snapshot.{Drive, LibrarySnapshot}
use open_vtl.Orchestrate.{Plant}
use open_vtl.Orchestrate.Apply.Extended.{Extends, tail-Extends}
use open_vtl.Orchestrate.Apply.{
  Act, rewrite_contents, reload_engine, Stop, is_busy, busy_drive, busy_library, Shell, Window,
  world_of, acted, act, stop_if, rewrite_live, restart, settle, read_conf, present, apply_libraries,
}

-- Empty and idle.
abbrev pub AllIdle : List Drive → Type 0
AllIdle [] = Unit {0}
AllIdle (d ∷ ds) = (d.loaded ≡ []) × (d.activity ≡ "idle") × AllIdle ds

abbrev pub AllQuiet : List LibrarySnapshot → Type 0
AllQuiet [] = Unit {0}
AllQuiet (l ∷ ls) = AllIdle l.drives × AllQuiet ls

-- One rewrite for each library that is live, none of which failed.
abbrev pub rewrites : List LibrarySnapshot → List (Act × Bool)
rewrites [] = []
rewrites (l ∷ ls) =
    if l.library.live then (rewrite_contents l.library.id, false) ∷ rewrites ls else rewrites ls

-- The first of the rewrites that were expected, and then the next of them, which failed.
pub record IsBroken (expected done : List (Act × Bool)) : Type 0 where
  pub before : List (Act × Bool)
  pub failed : Act
  pub later : List (Act × Bool)
  pub expected_is : expected ≡ before ++ (failed, false) ∷ later
  pub done_is : done ≡ before ++ (failed, true) ∷ []

idle_of : (lib : ℕ) (ds : List Drive) → busy_drive lib ds ≡ none → AllIdle ds
unfolding busy_drive
idle_of lib [] e = tt
idle_of lib (d ∷ ds) e = elim (Bool-cases (is_busy d)) [
  | inl busy ↦ absurd (cc (rw busy at e))
  | inr calm ↦ (
    bytes_eq_sound d.loaded [] (ground arith),
    (eq_iff d.activity "idle").0 (ground arith),
    idle_of lib ds (rw calm at e),
  )
]

quiet_of : (libs : List LibrarySnapshot) → busy_library libs ≡ none → AllQuiet libs
unfolding busy_library
quiet_of [] e = tt
quiet_of (l ∷ ls) e = elim (Option-cases (busy_drive l.library.id l.drives)) [
  | inl calm ↦ (idle_of l.library.id l.drives calm, quiet_of ls (rw calm at e))
  | inr (f, busy) ↦ absurd (cc (rw busy at e))
]

one_before :
    (x : Act × Bool) {expected done : List (Act × Bool)}
    → IsBroken expected done
    → IsBroken (x ∷ expected) (x ∷ done)
one_before x b = record {
  before = x ∷ b.before;
  failed = b.failed;
  later = b.later;
  expected_is = ap (λ t. x ∷ t) b.expected_is;
  done_is = ap (λ t. x ∷ t) b.done_is;
}

module _ (env : Env) where
  -- After `first` some of what was expected, the last of which failed.
  record Broken (expected first : List (Act × Bool)) (s : Window env) : Type 0 where
    done : List (Act × Bool)
    same : s.acts ≡ first ++ done
    only : IsBroken expected done

  module _ (plant : Plant env) (shell : Shell env) where
    act_exact :
        (before : List (Act × Bool)) (a : Act)
        → Triple
            (λ (s : Window env). s.acts ≡ before)
            (act env plant shell a)
            (λ _ s. s.acts ≡ before ++ (a, false) ∷ [])
            (λ _ s. s.acts ≡ before ++ (a, true) ∷ [])
    unfolding act
    act_exact before a = record { at = λ s e. go s e (shell.perform a (world_of env s)) }
      where
        go :
            (s : Window env)
            → s.acts ≡ before
            → (r : Bool × env.World)
            → Ends
                (λ _ (s' : Window env). s'.acts ≡ before ++ (a, false) ∷ [])
                (λ _ s'. s'.acts ≡ before ++ (a, true) ∷ [])
                (acted env plant shell a s r)
        go s e (true, w) = ap (λ acts. acts ++ (a, true) ∷ []) e
        go s e (false, w) = ap (λ acts. acts ++ (a, false) ∷ []) e

    rewrite_live_lem :
        (first : List (Act × Bool)) (libs : List LibrarySnapshot)
        → Triple
            (λ (s : Window env). s.acts ≡ first)
            (rewrite_live env plant shell libs)
            (λ _ s. s.acts ≡ first ++ rewrites libs)
            (λ _. Broken (rewrites libs) first)
    unfolding rewrite_live
    rewrite_live_lem first [] = triple_pure tt (λ s e. e ∙ sym (append-nil _))
    rewrite_live_lem first (l ∷ ls) = elim (Bool-cases l.library.live) [
      | inr pending ↦ rw pending (rewrite_live_lem first ls)
      | inl live ↦ rw live (
          triple_seq
            (triple_weaken (λ _ e. e) (λ _ _ e. e)
              (λ _ s e. record {
                done = (rewrite_contents l.library.id, true) ∷ [];
                same = e;
                only = record {
                  before = [];
                  failed = rewrite_contents l.library.id;
                  later = rewrites ls;
                  expected_is = refl;
                  done_is = refl;
                };
              })
              (act_exact first (rewrite_contents l.library.id)))
            (triple_weaken (λ _ e. e) (λ _ s e. e ∙ append_assoc first _ _)
              (λ _ s b. record {
                done = (rewrite_contents l.library.id, false) ∷ b.done;
                same = b.same ∙ append_assoc first _ _;
                only = one_before (rewrite_contents l.library.id, false) b.only;
              })
              (rewrite_live_lem (first ++ (rewrite_contents l.library.id, false) ∷ []) ls)))
    ]

    -- What was done since `s`: nothing, or, with every drive of the snapshot empty and idle, the rewrites
    -- up to one that failed, or all the rewrites, none of which failed, and then the rest.
    pub record IsOrdered (s s' : Window env) : Type 0 where
      pub done : List (Act × Bool)
      pub since : s'.acts ≡ s.acts ++ done
      pub order :
          (done ≡ [])
          ⊎ (AllQuiet (shell.snapshot (world_of env s))
              × (IsBroken (rewrites (shell.snapshot (world_of env s))) done
                  ⊎ ((rest : List (Act × Bool)) × (done
                        ≡ rewrites (shell.snapshot (world_of env s)) ++ rest))))

    -- Whatever fails, ApplyLibraries does nothing to mhVTL before it has found every drive of every
    -- library empty and idle and has rewritten the contents of every live library, each once and in
    -- order and without a failure; at a rewrite that fails it stops, and does nothing more.
    pub apply_libraries-IsOrdered :
        (s : Window env)
        → Ends (λ _. IsOrdered s) (λ _. IsOrdered s) (apply_libraries env plant shell s)
    unfolding apply_libraries
    apply_libraries-IsOrdered s = go (busy_library libs) refl
      where
        libs : List LibrarySnapshot
        libs = shell.snapshot (world_of env s)

        go :
            (o : Option Stop)
            → busy_library libs ≡ o
            → Ends
                (λ _. IsOrdered s)
                (λ _. IsOrdered s)
                ((stop_if env plant shell o
                    >> (rewrite_live env plant shell libs
                        >> (restart env plant shell
                            >> (read_conf env plant shell >>= λ declared.
                                settle env plant shell declared
                                >> (act env plant shell reload_engine
                                    >> present env plant shell declared)))))
                  s)
        go (some f) e = record { done = []; since = sym (append-nil _); order = inl refl }
        go none e =
            (triple_weaken (λ _ a. a)
                (λ _ s' x. record {
                  done = rewrites libs ++ x.rest;
                  since = x.same ∙ append_assoc s.acts (rewrites libs) x.rest;
                  order = inr (quiet_of libs e, inr (x.rest, refl));
                })
                ended
                (triple_seq
                  (triple_weaken (λ _ a. a)
                    (λ _ s' a. record { rest = []; same = a ∙ sym (append-nil _) })
                    (λ _ s' b. inl b) (rewrite_live_lem s.acts libs))
                  (triple_weaken (λ _ x. x) (λ _ _ x. x) (λ _ s' x. inr x)
                    (tail-Extends env plant shell {first = s.acts ++ rewrites libs})))).at
              s refl
          where
            ended :
                (f : Stop) (s' : Window env)
                → Broken (rewrites libs) s.acts s' ⊎ Extends env (s.acts ++ rewrites libs) s'
                → IsOrdered s s'
            ended f s' (inl b) = record {
              done = b.done;
              since = b.same;
              order = inr (quiet_of libs e, inl b.only);
            }
            ended f s' (inr x) = record {
              done = rewrites libs ++ x.rest;
              since = x.same ∙ append_assoc s.acts (rewrites libs) x.rest;
              order = inr (quiet_of libs e, inr (x.rest, refl));
            }
