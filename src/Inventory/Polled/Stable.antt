-- ===== src/Inventory/Polled/Stable.antt =====
-- applyMtx of openvtld/internal/inventory/engine.go on a status that it has already seen.
use open_vtl.Prelude.Text.{bytes_eq, bytes_eq_sound}
use open_vtl.Prelude.Words.{bytes_eq_refl}
use open_vtl.Prelude.Distinct.{Lacks, Distinct}
use open_vtl.Prelude.{
  ℕ, zero, suc, ◌≡◌, ◌≢◌, refl, sym, ap, ◌∙◌, subst, Bool, true, false, ◌||◌, Option, none, some,
  List, [], ◌∷◌, Bool-cases, inl, inr, ◌⊎◌,
}
use open_vtl.Inventory.Snapshot.{Drive, Cart, LibrarySnapshot}
use open_vtl.Inventory.Changer.{MtxDrive, MtxStatus}
use open_vtl.Inventory.Polled.{
  drive_at, set_drive, load_events, mounted, apply_drives, new_location, old_location, move_events,
  relocate, apply_mtx,
}

abbrev pub numbers : List MtxDrive → List ℕ
numbers [] = []
numbers (m ∷ ms) = m.num ∷ numbers ms

abbrev Shows : MtxDrive → Option Drive → Type 0
Shows m none = Unit {0}
Shows m (some d) = (d.loaded ≡ m.label) × (d.source_slot ≡ m.source)

abbrev ShowsAll : List MtxDrive → List Drive → Type 0
ShowsAll [] ds = Unit {0}
ShowsAll (m ∷ ms) ds = Shows m (drive_at m.num ds) × ShowsAll ms ds

shown_at :
    (m : MtxDrive) (n : ℕ) (ds : List Drive) → Shows m (drive_at n (set_drive n (mounted m) ds))
shown_at m n [] = tt
shown_at m zero (d ∷ ds) = (refl, refl)
shown_at m (suc n) (d ∷ ds) = shown_at m n ds

-- Setting a drive leaves the others.
drive_at-set_drive :
    (k n : ℕ) (f : Drive → Drive) (ds : List Drive)
    → n ≢ k
    → drive_at k (set_drive n f ds) ≡ drive_at k ds
drive_at-set_drive k n f [] h = refl
drive_at-set_drive zero zero f (d ∷ ds) h = absurd (h refl)
drive_at-set_drive zero (suc n) f (d ∷ ds) h = refl
drive_at-set_drive (suc k) zero f (d ∷ ds) h = refl
drive_at-set_drive (suc k) (suc n) f (d ∷ ds) h = drive_at-set_drive k n f ds (λ e. h (ap suc e))

apply_drives-others :
    (k : ℕ) (ms : List MtxDrive) (ds : List Drive)
    → Lacks k (numbers ms)
    → drive_at k (apply_drives ms ds).1 ≡ drive_at k ds
unfolding apply_drives
apply_drives-others k [] ds h = refl
apply_drives-others k (m ∷ ms) ds h =
    apply_drives-others k ms (set_drive m.num (mounted m) ds) h.1
    ∙ drive_at-set_drive k m.num (mounted m) ds h.0

apply_drives-ShowsAll :
    (ms : List MtxDrive) (ds : List Drive)
    → Distinct (numbers ms)
    → ShowsAll ms (apply_drives ms ds).1
unfolding apply_drives
apply_drives-ShowsAll [] ds h = tt
apply_drives-ShowsAll (m ∷ ms) ds h = (
  subst (Shows m) (sym (apply_drives-others m.num ms (set_drive m.num (mounted m) ds) h.0))
      (shown_at m m.num ds),
  apply_drives-ShowsAll ms (set_drive m.num (mounted m) ds) h.1,
)

shown_no_events : (m : MtxDrive) (o : Option Drive) → Shows m o → load_events m o ≡ []
shown_no_events m none h = refl
shown_no_events m (some d) h =
    rw (subst (λ l. bytes_eq d.loaded l ≡ true) h.0 (bytes_eq_refl d.loaded)) refl

shown_kept :
    (m : MtxDrive) (n : ℕ) (ds : List Drive)
    → Shows m (drive_at n ds)
    → set_drive n (mounted m) ds ≡ ds
shown_kept m n [] h = refl
shown_kept m zero (d ∷ ds) h =
    ap (λ l. record d { loaded = l; source_slot = m.source } ∷ ds) (sym h.0)
    ∙ ap (λ n. record d { source_slot = n } ∷ ds) (sym h.1)
shown_kept m (suc n) (d ∷ ds) h = ap (λ t. d ∷ t) (shown_kept m n ds h)

apply_drives_stable :
    (ms : List MtxDrive) (ds : List Drive) → ShowsAll ms ds → apply_drives ms ds ≡ ([], ds)
unfolding apply_drives
apply_drives_stable [] ds h = refl
apply_drives_stable (m ∷ ms) ds h =
    rw (shown_no_events m (drive_at m.num ds) h.0)
      (rw (shown_kept m m.num ds h.0) (apply_drives_stable ms ds h.1))

or_right : (a b : Bool) → b ≡ true → a || b ≡ true
or_right true b e = refl
or_right false b e = e

abbrev any_with : List ℕ → List Cart → Bool
any_with label [] = false
any_with label (c ∷ cs) = bytes_eq c.label label || any_with label cs

-- Every cartridge has a namesake in the other list.
abbrev AllIn : List Cart → List Cart → Type 0
AllIn [] all = Unit {0}
AllIn (c ∷ cs) all = (any_with c.label all ≡ true) × AllIn cs all

AllIn-weaken : (x : Cart) (cs all : List Cart) → AllIn cs all → AllIn cs (x ∷ all)
AllIn-weaken x [] all h = tt
AllIn-weaken x (c ∷ cs) all h =
    (or_right (bytes_eq x.label c.label) _ h.0, AllIn-weaken x cs all h.1)

AllIn-self : (cs : List Cart) → AllIn cs cs
AllIn-self [] = tt
AllIn-self (c ∷ cs) = (rw (bytes_eq_refl c.label) refl, AllIn-weaken c cs cs (AllIn-self cs))

-- The old location of a label, once the cartridges are where `loc` says.
old_location-relocate :
    (loc : List ℕ → List ℕ) (label found : List ℕ) (cs : List Cart)
    → (any_with label cs ≡ true) ⊎ (found ≡ loc label)
    → old_location label found (relocate loc cs) ≡ loc label
old_location-relocate loc label found [] (inl e) = absurd cc
old_location-relocate loc label found [] (inr e) = e
old_location-relocate loc label found (c ∷ cs) h = elim (Bool-cases (bytes_eq c.label label)) [
  | inl same ↦
      rw (old_location, same)
        (old_location-relocate loc label (loc c.label) cs
          (inr (ap loc (bytes_eq_sound c.label label same))))
  | inr other ↦ rw (other, old_location) (old_location-relocate loc label found cs (rw other at h))
]

no_move_events :
    (loc : List ℕ → List ℕ) (all cs : List Cart)
    → AllIn cs all
    → move_events loc (relocate loc all) (relocate loc cs) ≡ []
no_move_events loc all [] h = refl
no_move_events loc all (c ∷ cs) h =
    rw (old_location-relocate loc c.label [] all (inl h.0))
      (rw (bytes_eq_refl (loc c.label)) (no_move_events loc all cs h.1))

relocate_twice :
    (loc : List ℕ → List ℕ) (cs : List Cart) → relocate loc (relocate loc cs) ≡ relocate loc cs
relocate_twice loc [] = refl
relocate_twice loc (c ∷ cs) =
    ap (λ t. record c { location = loc c.label } ∷ t) (relocate_twice loc cs)

-- If the status names no drive twice, a second poll that finds the same status changes nothing in the snapshot of the
-- library and reports no event.
pub apply_mtx_twice :
    (st : MtxStatus) (lib : LibrarySnapshot)
    → Distinct (numbers st.drives)
    → apply_mtx st (apply_mtx st lib).1 ≡ ([], (apply_mtx st lib).1)
unfolding apply_mtx
apply_mtx_twice st lib h =
    let ds = (apply_drives st.drives lib.drives).1 in
    let loc = new_location ds st.slots in
    rw (apply_drives_stable st.drives ds (apply_drives-ShowsAll st.drives lib.drives h)) (
      rw (no_move_events loc lib.carts lib.carts (AllIn-self lib.carts))
        (rw (relocate_twice loc lib.carts) refl))
