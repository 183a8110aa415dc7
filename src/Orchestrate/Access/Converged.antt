-- ===== src/Orchestrate/Access/Converged.antt =====
-- reconcileACLs of openvtld/internal/orchestrate/fc.go on all rows: the ACLs of the port become those of
-- the registry, and verifyACLs finds nothing.
use open_vtl.Prelude.Words.{bytes_ne}
use open_vtl.Prelude.{
  ℕ, ◌≡◌, ◌≢◌, refl, sym, subst, ◌∙◌, ap, Bool, true, false, Option, none, some, List, [], ◌∷◌,
  ◌++◌,
}
use mathlib.Core.Option.{some-injective}
use open_vtl.Exec.Triple.{Ends, triple_seq, triple_pure, triple_weaken}
use open_vtl.Store.{Env, InitiatorAcl}
use open_vtl.Store.Acls.{library_set}
use open_vtl.Orchestrate.{naa_to_colons, Plant, Machine, look, each}
use open_vtl.Orchestrate.Luns.{Binding, mapped_luns}
use open_vtl.Orchestrate.Access.{
  sort_ints, equal_ints, is_there, fc_in_scope, reconcile_row, acl_exists, reconcile_acls,
  verify_as, verify_row, verify_acls,
}
use open_vtl.Orchestrate.Access.Ascending.{equal_ints_refl}
use open_vtl.Orchestrate.Access.Effects.{
  Acls, sorted, put, intended, Unlisted, Apart, goal, decided, sorted_at, IsTargetcli, Stopped,
  Leads, put_self, row_lem,
}

module _ (env : Env) (plant : Plant env) (port : List ℕ) where
  open env use {World}

  module _ (laws : IsTargetcli env plant) where
    put_other : (dir d : List ℕ) (v : Option (List ℕ)) (f : Acls) → dir ≢ d → put dir v f d ≡ f d
    put_other dir d v f apart = rw (bytes_ne dir d apart)

    intended_other :
        (want : List Binding) (rows : List InitiatorAcl) (f : Acls) (d : List ℕ)
        → Unlisted d rows
        → intended port want rows f d ≡ f d
    unfolding intended
    intended_other want [] f d free = refl
    intended_other want (r ∷ rows) f d free =
        intended_other want rows _ d free.1 ∙ put_other _ d _ f free.0

    abbrev Known : (InitiatorAcl → Bool) → Acls → List InitiatorAcl → Type 0
    Known live f [] = Unit {0}
    Known live f (r ∷ rows) = (is_there (f (naa_to_colons r.wwpn)) ≡ live r) × Known live f rows

    Known-put :
        (live : InitiatorAcl → Bool) (dir : List ℕ) (v : Option (List ℕ)) (f : Acls)
        (rows : List InitiatorAcl)
        → Unlisted dir rows
        → Known live f rows
        → Known live (put dir v f) rows
    Known-put live dir v f [] free known = tt
    Known-put live dir v f (r ∷ rows) free known = (
      ap is_there (put_other dir _ v f (λ e. free.0 (sym e))) ∙ known.0,
      Known-put live dir v f rows free.1 known.1,
    )

    rows_lem :
        (want : List Binding) (live : InitiatorAcl → Bool) (rows : List InitiatorAcl) (f : Acls)
        → Apart rows
        → Known live f rows
        → Leads env plant port f
            (each env (λ r. reconcile_row env plant port want r (live r)) rows)
            (intended port want rows f)
    unfolding each intended
    rows_lem want live [] f apart known = triple_pure tt (λ m a. a)
    rows_lem want live (r ∷ rows) f apart known =
        triple_seq (row_lem env plant port laws want r (live r) f known.0)
          (rows_lem want live rows _ apart.1 (Known-put live _ _ f rows apart.0 known.1))

    Known-start :
        (w : World) (rows : List InitiatorAcl)
        → Known (acl_exists env plant port w) (sorted_at env plant port w) rows
    unfolding acl_exists
    Known-start w [] = tt
    Known-start w (r ∷ rows) =
        (there (plant.acl_at (naa_to_colons port) (naa_to_colons r.wwpn) w), Known-start w rows)
      where
        there : (o : Option (List ℕ)) → is_there (sorted o) ≡ is_there o
        there none = refl
        there (some luns) = refl

    equal_ints_same : (xs ys : List ℕ) → some ys ≡ some xs → equal_ints xs ys ≡ true
    equal_ints_same xs ys e =
        subst (λ zs. equal_ints xs zs ≡ true) (sym (some-injective ys xs e)) (equal_ints_refl xs)

    as_clean :
        (here : Bool) (wwpn luns : List ℕ) (o : Option (List ℕ))
        → sorted o ≡ decided here luns
        → verify_as here wwpn luns o ≡ []
    unfolding verify_as
    as_clean true wwpn luns none e = cc
    as_clean true wwpn luns (some live) e =
        let same : equal_ints luns (sort_ints live) ≡ true =
          equal_ints_same luns (sort_ints live) e in
        rw same
    as_clean false wwpn luns none e = refl
    as_clean false wwpn luns (some live) e = cc

    rows_clean :
        (want : List Binding) (w : World) (rows : List InitiatorAcl) (f : Acls)
        → Apart rows
        → ((d : List ℕ) → sorted_at env plant port w d ≡ intended port want rows f d)
        → verify_acls env plant port rows want w ≡ []
    unfolding verify_acls intended verify_row
    rows_clean want w [] f apart same = refl
    rows_clean want w (r ∷ rows) f apart same =
        subst (λ ds. ds ++ verify_acls env plant port rows want w ≡ []) (sym first)
          (rows_clean want w rows _ apart.1 same)
      where
        after : Acls
        after = put (naa_to_colons r.wwpn) (goal port want r) f

        first : verify_row env plant port want w r ≡ []
        first =
            as_clean (fc_in_scope port r) r.wwpn (mapped_luns want (library_set r))
              (plant.acl_at (naa_to_colons port) (naa_to_colons r.wwpn) w)
              (same (naa_to_colons r.wwpn)
                ∙ intended_other want rows after (naa_to_colons r.wwpn) apart.0
                ∙ put_self (naa_to_colons r.wwpn) (goal port want r) f)

    -- If targetcli does to the ACLs what it documents and the initiators have directories of their own,
    -- a pass of reconcileACLs over a port either stops at a command that failed, or leaves the port's
    -- ACLs as verifyACLs wants them, and every directory of no initiator as it was.
    pub reconcile_acls_lem :
        (rows : List InitiatorAcl) (want : List Binding) (m : Machine env)
        → Apart rows
        → Ends
            (λ _ m'.
              (verify_acls env plant port rows want m'.server.world ≡ [])
              × ((d : List ℕ)
                  → Unlisted d rows
                  → sorted_at env plant port m'.server.world d
                    ≡ sorted_at env plant port m.server.world d))
            (Stopped env plant port)
            (reconcile_acls env plant port rows want m)
    unfolding reconcile_acls look
    reconcile_acls_lem rows want m apart =
        (triple_weaken (λ _ a. a)
            (λ _ m' a. (
              rows_clean want m'.server.world rows _ apart a.same,
              λ d free. a.same d ∙ intended_other want rows _ d free,
            ))
            (λ _ _ a. a)
            (rows_lem want (acl_exists env plant port m.server.world) rows
              (sorted_at env plant port m.server.world) apart (Known-start m.server.world rows))).at
          m (record { same = λ d. refl })
