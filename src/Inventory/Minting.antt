-- ===== src/Inventory/Minting.antt =====
-- openvtld/internal/inventory: MintCart (mint.go) and AdoptCart (adopt.go), a cartridge taken through the MAP
-- into a slot. What mktape, vtlcmd, mtx and the file system do is a parameter, a `Station`; so is the number of
-- polls that fit in the 30 seconds of the loop.
pub mod Shown
pub mod Parked
use open_vtl.Prelude.Text.{bytes_eq}
use open_vtl.Prelude.{
  ℕ, zero, suc, String, Bool, true, false, not, ◌&&◌, Option, none, some, List, [], ◌∷◌, ◌==◌,
  if◌then◌else◌,
}
use open_vtl.Exec.{Result, ok, err}
use open_vtl.Inventory.{MhvtlLibrary}
use open_vtl.Inventory.Snapshot.{LibrarySnapshot}
use open_vtl.Inventory.Labels.{mint_density}
use open_vtl.Inventory.Changer.{MtxSlot, MtxStatus, NoSlot, find_free_slot}
use open_vtl.Inventory.Deletion.{last_declared, changer_for}

pub data MintFault : Type 0 where
  no_conf not_declared no_changer media_exists media_missing : MintFault
  slot_fault : NoSlot → MintFault
  make_failed load_failed close_failed context_over never_appeared park_failed : MintFault

pub data MintAct : Type 0 where
  -- mktape: home, size and density
  make_tape : List ℕ → ℕ → String → MintAct
  put_placeholder drop_placeholder : List ℕ → MintAct
  open_map load_map close_map rewrite_contents : MintAct
  move_cart : ℕ → ℕ → MintAct
  remove_media : List ℕ → MintAct

-- The I/E element that holds the label, the last of them, or 0.
abbrev pub ie_holding : List ℕ → ℕ → List MtxSlot → ℕ
ie_holding label found [] = found
ie_holding label found (s ∷ ss) =
    ie_holding label (if s.ie && bytes_eq s.label label then s.num else found) ss

abbrev pub ie_seen : List ℕ → Option MtxStatus → ℕ
ie_seen label none = 0
ie_seen label (some st) = ie_holding label 0 st.slots

-- What libAndChanger finds: the library, its changer and its home.
pub record Place : Type 0 where
  pub library : MhvtlLibrary
  pub changer : List ℕ
  pub home : List ℕ

abbrev pub placed_at : List ℕ → Option MhvtlLibrary → Option (List ℕ) → Result MintFault Place
placed_at media_dir none sg = err not_declared
placed_at media_dir (some lib) none = err no_changer
placed_at media_dir (some lib) (some sg) = ok (record {
  library = lib;
  changer = sg;
  home = (if bytes_eq lib.home_dir [] then media_dir else lib.home_dir);
})

unfoldable pub lib_and_changer :
    List ℕ → ℕ → List LibrarySnapshot → Option (List MhvtlLibrary) → Result MintFault Place
unfolding last_declared changer_for
lib_and_changer media_dir id libs none = err no_conf
lib_and_changer media_dir id libs (some conf) =
    placed_at media_dir (last_declared id none conf) (changer_for id libs)

module _ (World : Type 0) where
  -- What the machine answers. A read leaves the world alone.
  pub record Station : Type 0 where
    pub parse_conf : World → Option (List MhvtlLibrary)
    pub status : List ℕ → World → Option MtxStatus
    -- whether the act failed
    pub perform : MintAct → World → Bool × World
    -- the cartridge's directory in a home
    pub media_there : List ℕ → World → Bool
    -- a second, or the end of the context
    pub pause : World → Bool × World

  -- The slot, and the acts in order, each with whether it failed.
  pub record Minted : Type 0 where
    pub result : Result MintFault ℕ
    pub acts : List (MintAct × Bool)
    pub world : World

  abbrev pub finished : Result MintFault ℕ → World → Minted
  finished r w = record { result = r; acts = []; world = w }

  module _ (station : Station) (rounds id : ℕ) (label media_dir : List ℕ)
      (libs : List LibrarySnapshot) where
    abbrev pub first_act : MintAct → (Bool → World → Minted) → Bool × World → Minted
    first_act a next (failed, w) = let o = next failed w in record o { acts = (a, failed) ∷ o.acts }

    unfoldable pub run_act : MintAct → World → (Bool → World → Minted) → Minted
    run_act a w next = first_act a next (station.perform a w)

    -- An act whose failure is the end.
    abbrev pub unless_failed :
        MintFault → (MintFault → World → Minted) → (World → Minted) → Bool → World → Minted
    unless_failed e on_fail next true w = on_fail e w
    unless_failed e on_fail next false w = next w

    module _ (p : Place) (slot : ℕ) (on_fail : MintFault → World → Minted) where
      -- From the I/E element to the slot.
      unfoldable pub park_at : ℕ → World → Minted
      park_at ie w = run_act (move_cart ie slot) w (
          unless_failed park_failed on_fail (λ w1.
            run_act (drop_placeholder p.home) w1
              (λ _ w2. run_act rewrite_contents w2 (λ _. finished (ok slot)))))

      abbrev pub waited : (World → Minted) → Bool × World → Minted
      waited again (true, w) = on_fail context_over w
      waited again (false, w) = again w

      -- Until the cartridge is in an I/E element, or the time is over.
      unfoldable pub await_ie : ℕ → World → Minted
      unfolding park_at
      await_ie zero w = on_fail never_appeared w
      await_ie (suc k) w =
          let again = await_ie k in
          let ie = ie_seen label (station.status p.changer w) in
          if not (ie == 0) then park_at ie w else waited again (station.pause w)

      unfoldable pub park_mapped_media : World → Minted
      unfolding await_ie
      park_mapped_media w = run_act (put_placeholder p.home) w (λ _ w1. run_act open_map w1 (λ _ w2.
          run_act load_map w2 (
            unless_failed load_failed on_fail
              (λ w3. run_act close_map w3 (unless_failed close_failed on_fail (await_ie rounds))))))

    abbrev pub stopped_with : MintFault → World → Minted
    stopped_with e = finished (err e)

    -- MintCart removes what mktape made.
    abbrev pub removed_with : List ℕ → MintFault → World → Minted
    removed_with home e w = run_act (remove_media home) w (λ _. stopped_with e)

    unfoldable pub mint_in : ℕ → Place → World → Result NoSlot ℕ → Minted
    unfolding park_mapped_media mint_density
    mint_in size p w (err e) = stopped_with (slot_fault e) w
    mint_in size p w (ok slot) =
        if station.media_there p.home w
        then stopped_with media_exists w
        else run_act (make_tape p.home size (mint_density p.library).0) w (
            unless_failed make_failed stopped_with (park_mapped_media p slot (removed_with p.home)))

    abbrev pub mint_at : ℕ → World → Result MintFault Place → Minted
    unfolding mint_in find_free_slot
    mint_at size w (err e) = stopped_with e w
    mint_at size w (ok p) = mint_in size p w (find_free_slot (station.status p.changer w) label)

    unfoldable pub mint_cart : ℕ → World → Minted
    unfolding mint_at lib_and_changer
    mint_cart size w = mint_at size w (lib_and_changer media_dir id libs (station.parse_conf w))

    unfoldable pub adopt_in : Place → World → Result NoSlot ℕ → Minted
    unfolding park_mapped_media
    adopt_in p w (err e) = stopped_with (slot_fault e) w
    adopt_in p w (ok slot) = park_mapped_media p slot stopped_with w

    abbrev pub adopt_at : World → Result MintFault Place → Minted
    unfolding adopt_in find_free_slot
    adopt_at w (err e) = stopped_with e w
    adopt_at w (ok p) =
        if not (station.media_there p.home w)
        then stopped_with media_missing w
        else adopt_in p w (find_free_slot (station.status p.changer w) label)

    unfoldable pub adopt_cart : World → Minted
    unfolding adopt_at lib_and_changer
    adopt_cart w = adopt_at w (lib_and_changer media_dir id libs (station.parse_conf w))
