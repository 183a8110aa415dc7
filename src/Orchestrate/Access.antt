-- ===== src/Orchestrate/Access.antt =====
-- openvtld/internal/orchestrate/fc.go: reconcileACLs and verifyACLs, the ACLs of one port against the
-- registry.
pub mod Ascending
pub mod Effects
pub mod Converged
use open_vtl.Prelude.Words.{holds_text}
use open_vtl.Prelude.{
  ℕ, Bool, true, false, not, ◌&&◌, Option, none, some, List, [], ◌∷◌, ◌++◌, leb, ◌==◌,
  if◌then◌else◌,
}
use open_vtl.Exec.{Exec, ◌>>=◌, ◌>>◌, pure}
use open_vtl.Store.{Env, InitiatorAcl}
use open_vtl.Store.Acls.{Scope, port_set, library_set}
use open_vtl.Orchestrate.{
  naa_to_colons, create_acl, delete_acl, create_mapped, Fault, Plant, Machine, look, each, tc,
}
use open_vtl.Orchestrate.Luns.{Binding, mapped_luns}

-- sort.Ints
unfoldable pub insert_int : ℕ → List ℕ → List ℕ
insert_int n [] = n ∷ []
insert_int n (m ∷ ms) = let rest = insert_int n ms in if leb n m then n ∷ m ∷ ms else m ∷ rest

unfoldable pub sort_ints : List ℕ → List ℕ
unfolding insert_int
sort_ints [] = []
sort_ints (n ∷ ns) = insert_int n (sort_ints ns)

unfoldable pub equal_ints : List ℕ → List ℕ → Bool
equal_ints [] [] = true
equal_ints (x ∷ xs) (y ∷ ys) = x == y && equal_ints xs ys
equal_ints [] (y ∷ ys) = false
equal_ints (x ∷ xs) [] = false

-- No directory has no entries.
abbrev pub entries : Option (List ℕ) → List ℕ
entries none = []
entries (some luns) = luns

abbrev pub is_there : Option (List ℕ) → Bool
is_there none = false
is_there (some luns) = true

-- nil is every port.
abbrev pub in_port_scope : Scope (List ℕ) → List ℕ → Bool
in_port_scope none wwn = true
in_port_scope (some ports) wwn = holds_text ports wwn

unfoldable pub fc_in_scope : List ℕ → InitiatorAcl → Bool
unfolding port_set
fc_in_scope wwn r = in_port_scope (port_set r) wwn

pub data Drift : Type 0 where
  target_absent : List ℕ → Drift
  acl_absent luns_drifted scoped_out : List ℕ → Drift

-- A row that belongs on the port or does not, against its directory.
unfoldable pub verify_as : Bool → List ℕ → List ℕ → Option (List ℕ) → List Drift
verify_as here wwpn luns dir =
    if here
    then (if not (is_there dir)
        then acl_absent wwpn ∷ []
        else (if not (equal_ints luns (sort_ints (entries dir)))
            then luns_drifted wwpn ∷ []
            else []))
    else (if is_there dir then scoped_out wwpn ∷ [] else [])

module _ (env : Env) (plant : Plant env) where
  open env use {World}

  -- liveMappedLUNs
  abbrev pub live_mapped : List ℕ → List ℕ → World → List ℕ
  live_mapped port wwpn w =
      sort_ints (entries (plant.acl_at (naa_to_colons port) (naa_to_colons wwpn) w))

  -- An ACL with its LUNs, each mapped under its own number.
  unfoldable pub create_with : List ℕ → List ℕ → List ℕ → Exec (Machine env) Fault (Unit {0})
  create_with port wwpn luns = do
    tc env plant (create_acl port wwpn)
    each env (λ lun. tc env plant (create_mapped port wwpn lun)) luns

  unfoldable pub reshape : List ℕ → List ℕ → List ℕ → List ℕ → Exec (Machine env) Fault (Unit {0})
  unfolding create_with
  reshape port wwpn luns live =
      if equal_ints luns live
      then pure tt
      else (do tc env plant (delete_acl port wwpn); create_with port wwpn luns)

  -- The switch of the loop, on whether the row belongs on the port and its directory is there.
  unfoldable pub reconcile_as :
      Bool → Bool → List ℕ → List ℕ → List ℕ → Exec (Machine env) Fault (Unit {0})
  unfolding create_with reshape
  reconcile_as here exists port wwpn luns =
      if here && not exists
      then create_with port wwpn luns
      else (if not here && exists
          then tc env plant (delete_acl port wwpn)
          else (if here && exists
              then (do live ← look env (live_mapped port wwpn); reshape port wwpn luns live)
              else pure tt))

  -- One row; `exists` is whether its directory was there when the pass began.
  unfoldable pub reconcile_row :
      List ℕ → List Binding → InitiatorAcl → Bool → Exec (Machine env) Fault (Unit {0})
  unfolding reconcile_as
  reconcile_row port want r exists =
      reconcile_as (fc_in_scope port r) exists port r.wwpn (mapped_luns want (library_set r))

  unfoldable pub acl_exists : List ℕ → World → InitiatorAcl → Bool
  acl_exists port w r = is_there (plant.acl_at (naa_to_colons port) (naa_to_colons r.wwpn) w)

  unfoldable pub reconcile_acls :
      List ℕ → List InitiatorAcl → List Binding → Exec (Machine env) Fault (Unit {0})
  unfolding reconcile_row
  reconcile_acls port rows want = do
    live ← look env (acl_exists port)
    each env (λ r. reconcile_row port want r (live r)) rows

  -- What one row finds.
  unfoldable pub verify_row : List ℕ → List Binding → World → InitiatorAcl → List Drift
  unfolding verify_as
  verify_row port want w r =
      verify_as (fc_in_scope port r) r.wwpn (mapped_luns want (library_set r))
        (plant.acl_at (naa_to_colons port) (naa_to_colons r.wwpn) w)

  unfoldable pub verify_acls : List ℕ → List InitiatorAcl → List Binding → World → List Drift
  unfolding verify_row
  verify_acls port [] want w = []
  verify_acls port (r ∷ rows) want w = verify_row port want w r ++ verify_acls port rows want w
