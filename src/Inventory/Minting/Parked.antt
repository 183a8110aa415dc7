-- ===== src/Inventory/Minting/Parked.antt =====
-- What MintCart and AdoptCart of openvtld/internal/inventory leave: a cartridge in its slot, or what was there.
use open_vtl.Prelude.{
  ℕ, zero, suc, ◌≡◌, refl, Bool, true, false, not, Option, none, some, List, [], ◌∷◌, ◌==◌,
  Bool-cases, String, ◌⊎◌, inl, inr, arith,
}
use open_vtl.Exec.{Result, ok, err}
use open_vtl.Inventory.Labels.{mint_density}
use open_vtl.Inventory.Snapshot.{LibrarySnapshot}
use open_vtl.Inventory.Minting.Shown.{shown_in, ie_seen_lem}
use open_vtl.Inventory.Changer.{MtxStatus, NoSlot, find_free_slot}
use open_vtl.Inventory.Minting.{
  MintFault, MintAct, make_tape, put_placeholder, drop_placeholder, open_map, load_map, close_map,
  rewrite_contents, move_cart, remove_media, ie_seen, Place, lib_and_changer, Station, Minted,
  first_act, run_act, unless_failed, park_at, waited, await_ie, park_mapped_media, stopped_with,
  removed_with, mint_in, mint_at, mint_cart, adopt_in, adopt_at, adopt_cart, media_exists,
  make_failed, load_failed, close_failed, context_over, never_appeared, park_failed, slot_fault,
  media_missing,
}

-- Whether there are media after an act.
abbrev pub media_after : Bool → MintAct → Bool → Bool
media_after media (make_tape home size density) false = true
media_after media (remove_media home) failed = false
media_after media _ failed = media

-- The slot that the cartridge was last moved to.
abbrev pub slot_after : Option ℕ → MintAct → Bool → Option ℕ
slot_after at (move_cart ie slot) false = some slot
slot_after at _ failed = at

module _ (World : Type 0) (station : Station World) (rounds id : ℕ) (label media_dir : List ℕ)
    (libs : List LibrarySnapshot) where
  -- The world in which a cartridge is moved: the status of the changer shows it in the I/E element.
  pub record Shown (sg : List ℕ) (ie slot : ℕ) (failed : Bool) : Type 0 where
    pub world : World
    pub moved : (station.perform (move_cart ie slot) world).0 ≡ failed
    pub status : MtxStatus
    pub read : station.status sg world ≡ some status
    pub shown : shown_in label ie status.slots ≡ true

  -- What an act may be, at a place with a chosen slot, if the media were there before (`kept`) or not. Only media
  -- that were not there are made or removed.
  abbrev pub Proper : Place → ℕ → Bool → MintAct → Bool → Type 0
  Proper p slot kept (make_tape home size density) failed = (home ≡ p.home) × (kept ≡ false)
  Proper p slot kept (remove_media home) failed = (home ≡ p.home) × (kept ≡ false)
  Proper p slot kept (move_cart ie s) failed = (s ≡ slot) × Shown p.changer ie s failed
  Proper p slot kept (put_placeholder home) failed = home ≡ p.home
  Proper p slot kept (drop_placeholder home) failed = home ≡ p.home
  Proper p slot kept _ failed = Unit {0}

  -- Acts and result, from media that are there or not and a cartridge that was moved or not: every act is proper. A
  -- success ends with media and the cartridge moved to the slot of the result; a failure with media if they were
  -- there before.
  abbrev pub Leaves :
      Place → ℕ → Bool → Bool → Option ℕ → List (MintAct × Bool) → Result MintFault ℕ → Type 0
  Leaves p slot kept media at [] (ok n) = (media ≡ true) × (at ≡ some slot) × (n ≡ slot)
  Leaves p slot kept media at [] (err e) = media ≡ kept
  Leaves p slot kept media at ((a, failed) ∷ acts) r =
      Proper p slot kept a failed
      × Leaves p slot kept (media_after media a failed) (slot_after at a failed) acts r

  pub record IsLeft (p : Place) (slot : ℕ) (kept media : Bool) (at : Option ℕ) (o : Minted World)
      : Type 0 where
    pub left : Leaves p slot kept media at o.acts o.result

  run_act-IsLeft :
      (p : Place) (slot : ℕ) (kept media : Bool) (at : Option ℕ) (a : MintAct) (w : World)
      (next : Bool → World → Minted World)
      → Proper p slot kept a (station.perform a w).0
      → ((failed : Bool) (w' : World)
          → IsLeft p slot kept
              (media_after media a failed)
              (slot_after at a failed)
              (next failed w'))
      → IsLeft p slot kept media at (run_act World station rounds id label media_dir libs a w next)
  unfolding run_act
  run_act-IsLeft p slot kept media at a w next proper h = go (station.perform a w) proper
    where
      go :
          (r : Bool × World)
          → Proper p slot kept a r.0
          → IsLeft p slot kept media at
              (first_act World station rounds id label media_dir libs a next r)
      go (failed, w') allowed = record { left = (allowed, (h failed w').left) }

  module _ (p : Place) (slot : ℕ) (kept : Bool) (on_fail : MintFault → World → Minted World)
      (fails : (e : MintFault) (w : World) → IsLeft p slot kept true none (on_fail e w)) where
    moved :
        (ie : ℕ) (next : World → Minted World) (failed : Bool) (w : World)
        → ((w' : World) → IsLeft p slot kept true (some slot) (next w'))
        → IsLeft p slot kept true (slot_after none (move_cart ie slot) failed) (
            unless_failed World station rounds id label media_dir libs park_failed on_fail next
              failed w)
    moved ie next true w h = fails park_failed w
    moved ie next false w h = h w

    park_at-IsLeft :
        (ie : ℕ) (w : World)
        → Shown p.changer ie slot (station.perform (move_cart ie slot) w).0
        → IsLeft p slot kept true none
            (park_at World station rounds id label media_dir libs p slot on_fail ie w)
    unfolding park_at
    park_at-IsLeft ie w shown =
        run_act-IsLeft p slot kept true none (move_cart ie slot) w _ (refl, shown)
          (λ failed w1. moved ie _ failed w1 (λ w2.
            run_act-IsLeft p slot kept true (some slot) (drop_placeholder p.home) w2 _ refl (λ _ w3.
              run_act-IsLeft p slot kept true (some slot) rewrite_contents w3 _ tt
                (λ _ w4. record { left = (refl, refl, refl) }))))

    waited-IsLeft :
        (again : World → Minted World) (r : Bool × World)
        → ((w : World) → IsLeft p slot kept true none (again w))
        → IsLeft p slot kept true none
            (waited World station rounds id label media_dir libs p slot on_fail again r)
    waited-IsLeft again (true, w) h = fails context_over w
    waited-IsLeft again (false, w) h = h w

    await_ie-IsLeft :
        (k : ℕ) (w : World)
        → IsLeft p slot kept true none
            (await_ie World station rounds id label media_dir libs p slot on_fail k w)
    unfolding await_ie
    await_ie-IsLeft zero w = fails never_appeared w
    await_ie-IsLeft (suc k) w =
        elim (Bool-cases (not (ie_seen label (station.status p.changer w) == 0))) [
          | inl found ↦
              let (st, read, shown) = ie_seen_lem label (station.status p.changer w) found in
              rw found (
                park_at-IsLeft _ w
                  record { world = w; moved = refl; status = st; read = read; shown = shown })
          | inr absent ↦ rw absent (waited-IsLeft _ (station.pause w) (await_ie-IsLeft k))
        ]

    or_fails :
        (e : MintFault) (next : World → Minted World) (failed : Bool) (w : World)
        → ((w' : World) → IsLeft p slot kept true none (next w'))
        → IsLeft p slot kept true none
            (unless_failed World station rounds id label media_dir libs e on_fail next failed w)
    or_fails e next true w h = fails e w
    or_fails e next false w h = h w

    park_mapped_media-IsLeft :
        (w : World)
        → IsLeft p slot kept true none
            (park_mapped_media World station rounds id label media_dir libs p slot on_fail w)
    unfolding park_mapped_media
    park_mapped_media-IsLeft w =
        run_act-IsLeft p slot kept true none (put_placeholder p.home) w _ refl (λ _ w1.
          run_act-IsLeft p slot kept true none open_map w1 _ tt (λ _ w2.
            run_act-IsLeft p slot kept true none load_map w2 _ tt (λ f3 w3.
              or_fails load_failed _ f3 w3 (λ w4.
                run_act-IsLeft p slot kept true none close_map w4 _ tt
                  (λ f5 w5. or_fails close_failed _ f5 w5 (await_ie-IsLeft rounds))))))

  -- Nothing is done and the result is a fault.
  pub record Refused (o : Minted World) : Type 0 where
    pub idle : o.acts ≡ []
    pub fault : MintFault
    pub result_is : o.result ≡ err fault

  -- Before the first act the library has a changer, the media are in its home or not (`kept`), and findFreeSlot names
  -- the slot for the changer's status; and things are left as they should be.
  pub record Done (kept : Bool) (w : World) (o : Minted World) : Type 0 where
    pub place : Place
    pub placed : lib_and_changer media_dir id libs (station.parse_conf w) ≡ ok place
    pub media : station.media_there place.home w ≡ kept
    pub slot : ℕ
    pub free : find_free_slot (station.status place.changer w) label ≡ ok slot
    pub is_left : IsLeft place slot kept kept none o

  abbrev pub Settled : Bool → World → Minted World → Type 0
  Settled kept w o = Refused o ⊎ Done kept w o

  refused :
      (e : MintFault) (w : World)
      → Refused (stopped_with World station rounds id label media_dir libs e w)
  refused e w = record { idle = refl; fault = e; result_is = refl }

  removed_with-IsLeft :
      (p : Place) (slot : ℕ) (e : MintFault) (w : World)
      → IsLeft p slot false true none
          (removed_with World station rounds id label media_dir libs p.home e w)
  removed_with-IsLeft p slot e w =
      run_act-IsLeft p slot false true none (remove_media p.home) w _ (refl, refl)
        (λ _ _. record { left = refl })

  made :
      (size slot : ℕ) (p : Place) (density : String) (failed : Bool) (w : World)
      → IsLeft p slot false (media_after false (make_tape p.home size density) failed) none (
          unless_failed World station rounds id label media_dir libs make_failed
            (stopped_with World station rounds id label media_dir libs)
            (park_mapped_media World station rounds id label media_dir libs p slot
              (removed_with World station rounds id label media_dir libs p.home))
            failed
            w)
  made size slot p density true w = record { left = refl }
  made size slot p density false w =
      park_mapped_media-IsLeft p slot false _ (removed_with-IsLeft p slot) w

  mint_in-Settled :
      (size : ℕ) (p : Place) (w : World) (r : Result NoSlot ℕ)
      → lib_and_changer media_dir id libs (station.parse_conf w) ≡ ok p
      → find_free_slot (station.status p.changer w) label ≡ r
      → Settled false w (mint_in World station rounds id label media_dir libs size p w r)
  unfolding mint_in
  mint_in-Settled size p w (err e) at h = inl (refused (slot_fault e) w)
  mint_in-Settled size p w (ok slot) at h = elim (Bool-cases (station.media_there p.home w)) [
    | inl there ↦ rw there (inl (refused media_exists w))
    | inr absent ↦ rw absent (
        inr record {
          place = p;
          placed = at;
          media = absent;
          slot = slot;
          free = h;
          is_left =
              run_act-IsLeft p slot false false none _ w _ (refl, refl)
                (made size slot p (mint_density p.library).0);
        })
  ]

  mint_at-Settled :
      (size : ℕ) (w : World) (r : Result MintFault Place)
      → lib_and_changer media_dir id libs (station.parse_conf w) ≡ r
      → Settled false w (mint_at World station rounds id label media_dir libs size w r)
  unfolding mint_at
  mint_at-Settled size w (err e) at = inl (refused e w)
  mint_at-Settled size w (ok p) at = mint_in-Settled size p w _ at refl

  adopt_in-Settled :
      (p : Place) (w : World) (r : Result NoSlot ℕ)
      → lib_and_changer media_dir id libs (station.parse_conf w) ≡ ok p
      → station.media_there p.home w ≡ true
      → find_free_slot (station.status p.changer w) label ≡ r
      → Settled true w (adopt_in World station rounds id label media_dir libs p w r)
  unfolding adopt_in
  adopt_in-Settled p w (err e) at there h = inl (refused (slot_fault e) w)
  adopt_in-Settled p w (ok slot) at there h = inr record {
    place = p;
    placed = at;
    media = there;
    slot = slot;
    free = h;
    is_left =
        park_mapped_media-IsLeft p slot true
          (stopped_with World station rounds id label media_dir libs)
          (λ e w'. record { left = refl }) w;
  }

  adopt_at-Settled :
      (w : World) (r : Result MintFault Place)
      → lib_and_changer media_dir id libs (station.parse_conf w) ≡ r
      → Settled true w (adopt_at World station rounds id label media_dir libs w r)
  unfolding adopt_at
  adopt_at-Settled w (err e) at = inl (refused e w)
  adopt_at-Settled w (ok p) at = elim (Bool-cases (not (station.media_there p.home w))) [
    | inl absent ↦ rw absent (inl (refused media_missing w))
    | inr there ↦ rw there (adopt_in-Settled p w _ at (ground (arith, there)) refl)
  ]

  -- MintCart refuses before it does anything, or the library has a changer, its home has no media of the label, and a
  -- slot is free. Then it makes media only in that home, and moves a cartridge only from an I/E element in which the
  -- changer shows the label, to that slot. A success returns the slot, with media made and the cartridge moved there;
  -- after a failure the removal of the media that were made was tried.
  pub mint_cart-Settled :
      (size : ℕ) (w : World)
      → Settled false w (mint_cart World station rounds id label media_dir libs size w)
  unfolding mint_cart
  mint_cart-Settled size w =
      mint_at-Settled size w (lib_and_changer media_dir id libs (station.parse_conf w)) refl

  -- AdoptCart refuses before it does anything, or the library has a changer, its home has media of the label, and a
  -- slot is free. Then it makes no media and removes none, and moves a cartridge only from an I/E element in which
  -- the changer shows the label, to that slot; a success returns the slot, with the cartridge moved there.
  pub adopt_cart-Settled :
      (w : World) → Settled true w (adopt_cart World station rounds id label media_dir libs w)
  unfolding adopt_cart
  adopt_cart-Settled w =
      adopt_at-Settled w (lib_and_changer media_dir id libs (station.parse_conf w)) refl
