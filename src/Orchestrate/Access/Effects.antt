-- ===== src/Orchestrate/Access/Effects.antt =====
-- reconcileACLs of openvtld/internal/orchestrate/fc.go on one row, against what targetcli documents: the
-- directories of a port before and after.
use open_vtl.Prelude.Text.{bytes_eq, bytes_eq_sound}
use open_vtl.Prelude.Words.{bytes_eq_refl}
use open_vtl.Prelude.{
  ℕ, ◌+◌, ◌≤◌, ◌≡◌, ◌≢◌, refl, sym, ◌∙◌, ap, Bool, true, false, Option, none, some, List, [], ◌∷◌,
  ◌++◌, Bool-cases, inl, inr, if◌then◌else◌, append_assoc, append-nil,
}
use open_vtl.Exec.{Exec}
use open_vtl.Exec.Triple.{Triple, Ends, triple_seq, triple_pure, triple_weaken}
use open_vtl.Store.{Env, InitiatorAcl}
use open_vtl.Store.Acls.{library_set}
use open_vtl.Orchestrate.{
  naa_to_colons, Command, create_acl, delete_acl, create_mapped, Fault, command_failed, Plant,
  Machine, look, each, tc, answered,
}
use open_vtl.Orchestrate.Luns.{Binding, mapped_luns}
use open_vtl.Orchestrate.Access.{
  insert_int, sort_ints, equal_ints, entries, is_there, fc_in_scope, create_with, reshape,
  reconcile_as, reconcile_row,
}
use open_vtl.Prelude.Distinct.{Ascends, Under}
use open_vtl.Orchestrate.Access.Ascending.{
  Under-last, insert_last, equal_ints_sound, mapped_from-Ascends,
}

-- The ACL directories of one port, each with its mapped LUNs in order.
abbrev pub Acls : Type 0
Acls = List ℕ → Option (List ℕ)

abbrev pub sorted : Option (List ℕ) → Option (List ℕ)
sorted none = none
sorted (some luns) = some (sort_ints luns)

abbrev pub with_lun : ℕ → Option (List ℕ) → Option (List ℕ)
with_lun n none = none
with_lun n (some luns) = some (insert_int n luns)

abbrev pub put : List ℕ → Option (List ℕ) → Acls → Acls
put dir v f d = if bytes_eq dir d then v else f d

-- What the registry means for one port; nothing else changes.
unfoldable pub intended : List ℕ → List Binding → List InitiatorAcl → Acls → Acls
intended port want [] f = f
intended port want (r ∷ rows) f = intended port want rows (
    put (naa_to_colons r.wwpn)
      (if fc_in_scope port r then some (mapped_luns want (library_set r)) else none) f)

-- No row has the directory `dir`.
abbrev pub Unlisted : List ℕ → List InitiatorAcl → Type 0
Unlisted dir [] = Unit {0}
Unlisted dir (r ∷ rows) = (naa_to_colons r.wwpn ≢ dir) × Unlisted dir rows

-- Initiators with directories of their own.
abbrev pub Apart : List InitiatorAcl → Type 0
Apart [] = Unit {0}
Apart (r ∷ rows) = Unlisted (naa_to_colons r.wwpn) rows × Apart rows

abbrev pub goal : List ℕ → List Binding → InitiatorAcl → Option (List ℕ)
goal port want r = if fc_in_scope port r then some (mapped_luns want (library_set r)) else none

module _ (env : Env) (plant : Plant env) where
  open env use {World}
  open plant use {targetcli, acl_at}

  abbrev pub sorted_at : List ℕ → World → Acls
  sorted_at port w d = sorted (acl_at (naa_to_colons port) d w)

  -- The documented effect of the commands on ACLs, where they succeed.
  pub record IsTargetcli : Type 0 where
    pub creates :
        (port wwpn : List ℕ) (w w' : World)
        → targetcli (create_acl port wwpn) w ≡ (false, w')
        → (d : List ℕ)
        → sorted_at port w' d ≡ put (naa_to_colons wwpn) (some []) (sorted_at port w) d
    pub deletes :
        (port wwpn : List ℕ) (w w' : World)
        → targetcli (delete_acl port wwpn) w ≡ (false, w')
        → (d : List ℕ) → sorted_at port w' d ≡ put (naa_to_colons wwpn) none (sorted_at port w) d
    pub maps :
        (port wwpn : List ℕ) (lun : ℕ) (w w' : World)
        → targetcli (create_mapped port wwpn lun) w ≡ (false, w')
        → (d : List ℕ)
        → sorted_at port w' d
          ≡ put
              (naa_to_colons wwpn)
              (with_lun lun (sorted_at port w (naa_to_colons wwpn)))
              (sorted_at port w)
              d

put_cong :
    (dir d : List ℕ) (v : Option (List ℕ)) (f g : Acls) → f d ≡ g d → put dir v f d ≡ put dir v g d
put_cong dir d v f g e = ap (λ o. if bytes_eq dir d then v else o) e

put-put :
    (dir d : List ℕ) (v u : Option (List ℕ)) (f : Acls) → put dir v (put dir u f) d ≡ put dir v f d
put-put dir d v u f = elim (Bool-cases (bytes_eq dir d)) [ inl e ↦ rw e | inr e ↦ rw e ]

pub put_self : (dir : List ℕ) (v : Option (List ℕ)) (f : Acls) → put dir v f dir ≡ v
put_self dir v f = rw (bytes_eq_refl dir)

put_known : (dir d : List ℕ) (v : Option (List ℕ)) (f : Acls) → f dir ≡ v → f d ≡ put dir v f d
put_known dir d v f e = elim (Bool-cases (bytes_eq dir d)) [
  | inl same ↦ rw same (ap f (sym (bytes_eq_sound dir d same)) ∙ e)
  | inr other ↦ rw other
]

-- In scope the ACL has the row's LUNs; out of scope there is none.
abbrev pub decided : Bool → List ℕ → Option (List ℕ)
decided here luns = if here then some luns else none

module _ (env : Env) (plant : Plant env) (port : List ℕ) where
  open env use {World}

  -- The port's ACL directories are `f`.
  pub record At (f : Acls) (m : Machine env) : Type 0 where
    pub same : (d : List ℕ) → sorted_at env plant port m.server.world d ≡ f d

  -- Only a command that fails stops.
  abbrev pub Stopped : Fault → Machine env → Type 0
  Stopped f m = (c : Command) × (f ≡ command_failed c)

  abbrev pub Leads : {A : Type 0} → Acls → Exec (Machine env) Fault A → Acls → Type 0
  Leads f m g = Triple (At f) m (λ _. At g) Stopped

  At_cong : (f g : Acls) (m : Machine env) → ((d : List ℕ) → f d ≡ g d) → At f m → At g m
  At_cong f g m h a = record { same = λ d. a.same d ∙ h d }

  -- One command, by its effect.
  tc_lem :
      (c : Command) (f g : Acls)
      → ((w w' : World)
          → plant.targetcli c w ≡ (false, w')
          → ((d : List ℕ) → sorted_at env plant port w d ≡ f d)
          → (d : List ℕ) → sorted_at env plant port w' d ≡ g d)
      → Leads f (tc env plant c) g
  unfolding tc
  tc_lem c f g effect = record { at = λ m a. go m a (plant.targetcli c m.server.world) refl }
    where
      go :
          (m : Machine env)
          → At f m
          → (r : Bool × World) → plant.targetcli c m.server.world ≡ r
          → Ends (λ _. At g) Stopped (answered env plant c m r)
      go m a (true, w) e = (c, refl)
      go m a (false, w) e = record { same = effect m.server.world w e a.same }

  module _ (laws : IsTargetcli env plant) where
    create_lem :
        (wwpn : List ℕ) (f : Acls)
        → Leads f (tc env plant (create_acl port wwpn)) (put (naa_to_colons wwpn) (some []) f)
    create_lem wwpn f = tc_lem _ f _ (λ w w' e same d.
        laws.creates port wwpn w w' e d ∙ put_cong _ d _ (sorted_at env plant port w) f (same d))

    delete_lem :
        (wwpn : List ℕ) (f : Acls)
        → Leads f (tc env plant (delete_acl port wwpn)) (put (naa_to_colons wwpn) none f)
    delete_lem wwpn f = tc_lem _ f _ (λ w w' e same d.
        laws.deletes port wwpn w w' e d ∙ put_cong _ d _ (sorted_at env plant port w) f (same d))

    map_lem :
        (wwpn : List ℕ) (k lun : ℕ) (luns : List ℕ) (f : Acls)
        → k ≤ lun
        → Under k luns
        → Leads
            (put (naa_to_colons wwpn) (some luns) f)
            (tc env plant (create_mapped port wwpn lun))
            (put (naa_to_colons wwpn) (some (luns ++ lun ∷ [])) f)
    map_lem wwpn k lun luns f le under = tc_lem _ _ _ (λ w w' e same d.
        laws.maps port wwpn lun w w' e d
        ∙ put_cong _ d _ (sorted_at env plant port w) (put (naa_to_colons wwpn) (some luns) f)
            (same d)
        ∙ put-put _ d _ (some luns) f
        ∙ ap (λ o. put (naa_to_colons wwpn) o f d)
            (ap (with_lun lun)
                (same (naa_to_colons wwpn) ∙ put_self (naa_to_colons wwpn) (some luns) f)
              ∙ ap some (insert_last k lun luns le under)))

    map_all :
        (wwpn : List ℕ) (k : ℕ) (luns more : List ℕ) (f : Acls)
        → Under k luns
        → Ascends k more
        → Leads
            (put (naa_to_colons wwpn) (some luns) f)
            (each env (λ lun. tc env plant (create_mapped port wwpn lun)) more)
            (put (naa_to_colons wwpn) (some (luns ++ more)) f)
    unfolding each
    map_all wwpn k luns [] f under asc =
        triple_pure tt (λ m a. At_cong _ _ m (λ d. rw append-nil) a)
    map_all wwpn k luns (n ∷ more) f under asc = triple_seq (map_lem wwpn k n luns f asc.0 under) (
        triple_weaken (λ m a. a) (λ _ m a. At_cong _ _ m (λ d. rw append_assoc) a) (λ _ m a. a)
          (map_all wwpn (n + 1) (luns ++ n ∷ []) more f (Under-last k n luns asc.0 under) asc.1))

    create_with_lem :
        (wwpn luns : List ℕ) (f : Acls)
        → Ascends 0 luns
        → Leads f (create_with env plant port wwpn luns) (put (naa_to_colons wwpn) (some luns) f)
    unfolding create_with
    create_with_lem wwpn luns f asc =
        triple_seq (create_lem wwpn f) (map_all wwpn 0 [] luns f tt asc)

    reshape_lem :
        (wwpn luns live : List ℕ) (f : Acls)
        → Ascends 0 luns
        → some live ≡ f (naa_to_colons wwpn)
        → Leads f (reshape env plant port wwpn luns live) (put (naa_to_colons wwpn) (some luns) f)
    unfolding reshape
    reshape_lem wwpn luns live f asc e = elim (Bool-cases (equal_ints luns live)) [
      | inl same ↦ rw same (
          triple_pure tt (λ m a.
            At_cong f _ m
              (λ d. put_known _ d _ f (sym e ∙ ap some (sym (equal_ints_sound luns live same)))) a))
      | inr other ↦ rw other (
          triple_weaken (λ m a. a) (λ _ m a. At_cong _ _ m (λ d. put-put _ d (some luns) none f) a)
            (λ _ m a. a) (triple_seq (delete_lem wwpn f) (create_with_lem wwpn luns _ asc)))
    ]

    none_there : (o : Option (List ℕ)) → is_there o ≡ false → o ≡ none
    none_there none h = refl
    none_there (some luns) h = cc

    some_there :
        (o : Option (List ℕ)) → is_there (sorted o) ≡ true → some (sort_ints (entries o)) ≡ sorted o
    some_there none h = cc
    some_there (some luns) h = refl

    as_lem :
        (here exists : Bool) (wwpn luns : List ℕ) (f : Acls)
        → Ascends 0 luns
        → is_there (f (naa_to_colons wwpn)) ≡ exists
        → Leads f
            (reconcile_as env plant here exists port wwpn luns)
            (put (naa_to_colons wwpn) (decided here luns) f)
    unfolding reconcile_as look
    as_lem true false wwpn luns f asc there = create_with_lem wwpn luns f asc
    as_lem true true wwpn luns f asc there = record {
      at = λ m a.
          (reshape_lem wwpn luns _ f asc (
              some_there _ (ap is_there (a.same (naa_to_colons wwpn)) ∙ there)
              ∙ a.same (naa_to_colons wwpn))).at
            m a;
    }
    as_lem false true wwpn luns f asc there = delete_lem wwpn f
    as_lem false false wwpn luns f asc there =
        triple_pure tt (λ m a. At_cong f _ m (λ d. put_known _ d none f (none_there _ there)) a)

    pub row_lem :
        (want : List Binding) (r : InitiatorAcl) (exists : Bool) (f : Acls)
        → is_there (f (naa_to_colons r.wwpn)) ≡ exists
        → Leads f
            (reconcile_row env plant port want r exists)
            (put (naa_to_colons r.wwpn) (goal port want r) f)
    unfolding reconcile_row mapped_luns
    row_lem want r exists f there =
        as_lem _ exists r.wwpn _ f (mapped_from-Ascends 0 want (library_set r)) there
