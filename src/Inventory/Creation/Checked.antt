-- ===== src/Inventory/Creation/Checked.antt =====
-- The checks of a new library's spec in openvtld/internal/inventory/libcreate.go.
use open_vtl.Prelude.{
  ◌≤◌, ◌≡◌, refl, ap, subst, Bool, true, false, arith, ltb, if◌then◌else◌, Option, none, some, not,
  ◌||◌, str_eq,
}
use open_vtl.Exec.{Result, ok, err}
use open_vtl.Inventory.Models.{
  DriveModel, LibraryVariant, LibraryModel, library_variant_by_product, drive_model_by_product,
}
use open_vtl.Inventory.Creation.{
  CreateLibrarySpec, checked_variant, check_spec, checked_variant, check_spec, checked_drive, fits,
  too_many_drives,
}

-- What the catalogue says of the spec: a variant that may be created, with drives that fit it.
pub record Fits (spec : CreateLibrarySpec) (m : LibraryModel) (dm : DriveModel) : Type 0 where
  pub variant : LibraryVariant
  pub listed : library_variant_by_product spec.product ≡ some (m, variant)
  pub creatable : (m.creatable ≡ true) × (variant.creatable ≡ true)
  pub at_least : 1 ≤ spec.num_drives
  pub at_most : spec.num_drives ≤ m.max_drives
  pub drives_listed : drive_model_by_product spec.drive_product ≡ some dm
  pub family : str_eq dm.family variant.family ≡ true

unless_err :
    {E A : Type 0} (b : Bool) (x : E) (r : Result E A) (a : A)
    → (if b then err x else r) ≡ ok a
    → (b ≡ false) × (r ≡ ok a)
unless_err true x r a e = absurd cc
unless_err false x r a e = (refl, e)

neither : (a b : Bool) → a || b ≡ false → (a ≡ false) × (b ≡ false)
neither true b e = absurd cc
neither false b e = (refl, e)

neither_not : (a b : Bool) → not a || not b ≡ false → (a ≡ true) × (b ≡ true)
neither_not true true e = (refl, refl)
neither_not true false e = absurd cc
neither_not false b e = absurd cc

chosen :
    (b : Bool) (m k : LibraryModel) (d dm : DriveModel)
    → checked_drive k (if b then some d else none) ≡ ok (m, dm)
    → (b ≡ true) × (k ≡ m) × (d ≡ dm)
chosen true m k d dm e = (refl, cc, cc)
chosen false m k d dm e = absurd cc

checked_drive_lem :
    (m k : LibraryModel) (v : LibraryVariant) (o : Option DriveModel) (dm : DriveModel)
    → checked_drive k (fits v o) ≡ ok (m, dm)
    → (k ≡ m) × (o ≡ some dm) × (str_eq dm.family v.family ≡ true)
checked_drive_lem m k v none dm e = absurd cc
checked_drive_lem m k v (some d) dm e =
    let h = chosen (str_eq d.family v.family) m k d dm e in
    (h.1, ap some h.2, subst (λ x. str_eq x.family v.family ≡ true) h.2 h.0)

checked_variant-Fits :
    (spec : CreateLibrarySpec) (o : Option (LibraryModel × LibraryVariant)) (m : LibraryModel)
    (dm : DriveModel)
    → library_variant_by_product spec.product ≡ o
    → checked_variant spec o ≡ ok (m, dm)
    → Fits spec m dm
checked_variant-Fits spec none m dm h e = absurd cc
checked_variant-Fits spec (some (k, v)) m dm h e =
    let made = unless_err _ _ _ _ e in
    let few = unless_err _ (too_many_drives k.max_drives) _ _ made.1 in
    let fit = checked_drive_lem m k v _ dm few.1 in
    let can = neither_not _ _ made.0 in
    let n = neither (ltb spec.num_drives 1) (ltb k.max_drives spec.num_drives) few.0 in
    record {
      variant = v;
      listed = rw h (ap (λ x. some (x, v)) fit.0);
      creatable = (subst (λ x. x.creatable ≡ true) fit.0 can.0, can.1);
      at_least = ground (arith, n.0);
      at_most = subst (λ x. spec.num_drives ≤ x.max_drives) fit.0 (ground (arith, n.1));
      drives_listed = fit.1;
      family = fit.2;
    }

pub check_spec-Fits :
    (there : Bool) (spec : CreateLibrarySpec) (m : LibraryModel) (dm : DriveModel)
    → check_spec there spec ≡ ok (m, dm)
    → (there ≡ true) × Fits spec m dm
unfolding check_spec
check_spec-Fits true spec m dm e = (refl, checked_variant-Fits spec _ m dm refl e)
check_spec-Fits false spec m dm e = absurd cc
