-- ===== src/Orchestrate/Targets/Registry.antt =====
-- What a clean verifyACLs of openvtld/internal/orchestrate/fc.go says of the ACLs of a port.
use open_vtl.Prelude.Text.{bytes_eq}
use open_vtl.Prelude.Words.{holds_text}
use open_vtl.Prelude.{
  ℕ, ◌+◌, ◌≡◌, refl, sym, ap, subst, ◌∙◌, Bool, true, false, ◌&&◌, ◌||◌, Option, none, some, List,
  [], ◌∷◌, ◌++◌, ℤ, pos, int_eq, leb, ◌==◌, Bool-cases, inl, inr, arith,
}
use open_vtl.Store.{Env, InitiatorAcl}
use open_vtl.Store.Acls.{Scope, port_set, library_set}
use open_vtl.Orchestrate.{Plant, naa_to_colons}
use open_vtl.Orchestrate.Luns.{Binding, holds_int, in_library_scope, mapped_from, mapped_luns}
use open_vtl.Orchestrate.Access.{
  insert_int, sort_ints, equal_ints, in_port_scope, fc_in_scope, Drift, verify_as, verify_row,
  verify_acls,
}

abbrev pub has_lun : ℕ → List ℕ → Bool
has_lun n [] = false
has_lun n (m ∷ ms) = m == n || has_lun n ms

abbrev pub names_port : List ℕ → List (List ℕ) → Bool
names_port port [] = false
names_port port (p ∷ ps) = bytes_eq p port || names_port port ps

-- No set names every port.
abbrev pub allows_port : Scope (List ℕ) → List ℕ → Bool
allows_port none port = true
allows_port (some ports) port = names_port port ports

abbrev pub names_library : ℕ → List ℤ → Bool
names_library lib [] = false
names_library lib (n ∷ ns) = int_eq n (pos lib) || names_library lib ns

-- No set names every library.
abbrev pub allows_library : Scope ℤ → ℕ → Bool
allows_library none lib = true
allows_library (some libs) lib = names_library lib libs

-- Whether the LUN `n` is bound, the first binding being of LUN `i`, to a device of a library that is allowed.
abbrev pub is_visible : ℕ → ℕ → List Binding → Scope ℤ → Bool
is_visible i n [] scope = false
is_visible i n (b ∷ bs) scope =
    (allows_library scope b.lib && i == n) || is_visible (i + 1) n bs scope

or_swap : (a b c : Bool) → b || (a || c) ≡ a || (b || c)
or_swap true true c = refl
or_swap true false c = refl
or_swap false b c = refl

has_lun-insert_int : (n m : ℕ) (ms : List ℕ) → has_lun n (insert_int m ms) ≡ m == n || has_lun n ms
unfolding insert_int
has_lun-insert_int n m [] = refl
has_lun-insert_int n m (k ∷ ks) = elim (Bool-cases (leb m k)) [
  | inl least ↦ rw least refl
  | inr more ↦
      rw more (
        ap (λ b. k == n || b) (has_lun-insert_int n m ks)
        ∙ or_swap (m == n) (k == n) (has_lun n ks))
]

has_lun-sort_ints : (n : ℕ) (ms : List ℕ) → has_lun n (sort_ints ms) ≡ has_lun n ms
unfolding sort_ints
has_lun-sort_ints n [] = refl
has_lun-sort_ints n (m ∷ ms) =
    has_lun-insert_int n m (sort_ints ms) ∙ ap (λ b. m == n || b) (has_lun-sort_ints n ms)

holds_int_lem : (lib : ℕ) (ns : List ℤ) → holds_int ns (pos lib) ≡ names_library lib ns
holds_int_lem lib [] = refl
holds_int_lem lib (n ∷ ns) = ap (λ b. int_eq n (pos lib) || b) (holds_int_lem lib ns)

in_library_scope_lem :
    (scope : Scope ℤ) (lib : ℕ) → in_library_scope scope lib ≡ allows_library scope lib
unfolding in_library_scope
in_library_scope_lem none lib = refl
in_library_scope_lem (some libs) lib = holds_int_lem lib libs

has_lun-mapped_from :
    (i n : ℕ) (bs : List Binding) (scope : Scope ℤ)
    → has_lun n (mapped_from i bs scope) ≡ is_visible i n bs scope
unfolding mapped_from
has_lun-mapped_from i n [] scope = refl
has_lun-mapped_from i n (b ∷ bs) scope =
    rw (in_library_scope_lem scope b.lib) (elim (Bool-cases (allows_library scope b.lib)) [
      | inl seen ↦ rw seen (ap (λ c. i == n || c) (has_lun-mapped_from (i + 1) n bs scope))
      | inr hidden ↦ rw hidden (has_lun-mapped_from (i + 1) n bs scope)
    ])

equal_ints_sound : (xs ys : List ℕ) → equal_ints xs ys ≡ true → xs ≡ ys
unfolding equal_ints
equal_ints_sound [] [] h = refl
equal_ints_sound (x ∷ xs) (y ∷ ys) h = grind (arith, equal_ints_sound xs ys)
equal_ints_sound [] (y ∷ ys) h = absurd cc
equal_ints_sound (x ∷ xs) [] h = absurd cc

fc_in_scope_lem :
    (port : List ℕ) (r : InitiatorAcl) → fc_in_scope port r ≡ allows_port (port_set r) port
unfolding fc_in_scope
fc_in_scope_lem port r = go (port_set r)
  where
    named : (ps : List (List ℕ)) → holds_text ps port ≡ names_port port ps
    named [] = refl
    named (p ∷ ps) = ap (λ b. bytes_eq p port || b) (named ps)

    go : (s : Scope (List ℕ)) → in_port_scope s port ≡ allows_port s port
    go none = refl
    go (some ps) = named ps

-- A directory for what is allowed, with its LUNs by number; none for what is not.
abbrev pub Matches : Bool → List Binding → Scope ℤ → Option (List ℕ) → Type 0
Matches true want scope none = ⊥
Matches true want scope (some luns) = (n : ℕ) → has_lun n luns ≡ is_visible 0 n want scope
Matches false want scope none = Unit {0}
Matches false want scope (some luns) = ⊥

verify_as-Matches :
    (here : Bool) (wwpn : List ℕ) (want : List Binding) (scope : Scope ℤ) (dir : Option (List ℕ))
    → verify_as here wwpn (mapped_luns want scope) dir ≡ []
    → Matches here want scope dir
unfolding verify_as mapped_luns
verify_as-Matches true wwpn want scope none e = absurd cc
verify_as-Matches true wwpn want scope (some luns) e = λ n.
    elim (Bool-cases (equal_ints (mapped_from 0 want scope) (sort_ints luns))) [
      | inr other ↦ absurd (cc (rw other at e))
      | inl same ↦
          sym (has_lun-sort_ints n luns)
          ∙ ap (has_lun n) (sym (equal_ints_sound (mapped_from 0 want scope) (sort_ints luns) same))
          ∙ has_lun-mapped_from 0 n want scope
    ]
verify_as-Matches false wwpn want scope none e = tt
verify_as-Matches false wwpn want scope (some luns) e = absurd cc

both_empty : (a b : List Drift) → a ++ b ≡ [] → (a ≡ []) × (b ≡ [])
both_empty [] b e = (refl, e)
both_empty (x ∷ a) b e = absurd cc

module _ (env : Env) (plant : Plant env) where
  -- Each initiator of the registry has a directory on the port when its port set allows it, with exactly the LUNs of
  -- the libraries that its library set allows, and none otherwise.
  abbrev pub Registered : List ℕ → List InitiatorAcl → List Binding → env.World → Type 0
  Registered port [] want w = Unit {0}
  Registered port (r ∷ rows) want w =
      Matches (allows_port (port_set r) port) want (library_set r)
        (plant.acl_at (naa_to_colons port) (naa_to_colons r.wwpn) w)
      × Registered port rows want w

  pub verify_acls-Registered :
      (port : List ℕ) (rows : List InitiatorAcl) (want : List Binding) (w : env.World)
      → verify_acls env plant port rows want w ≡ []
      → Registered port rows want w
  unfolding verify_acls verify_row
  verify_acls-Registered port [] want w e = tt
  verify_acls-Registered port (r ∷ rows) want w e =
      let h = both_empty _ (verify_acls env plant port rows want w) e in
      (
        subst
            (λ here.
              Matches here want (library_set r)
                (plant.acl_at (naa_to_colons port) (naa_to_colons r.wwpn) w))
            (fc_in_scope_lem port r) (verify_as-Matches (fc_in_scope port r) r.wwpn want _ _ h.0),
        verify_acls-Registered port rows want w h.1,
      )
