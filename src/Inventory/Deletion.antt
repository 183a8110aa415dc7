-- ===== src/Inventory/Deletion.antt =====
-- openvtld/internal/inventory/delete.go: DeleteCart. What mtx, vtlcmd and the file system do is a parameter,
-- a `Robot`; so is the number of polls that fit in the 15 seconds of its loop.
pub mod Scan
pub mod Cleared
use open_vtl.Prelude.Text.{bytes_eq}
use open_vtl.Prelude.{
  ℕ, zero, suc, Bool, true, false, not, ◌&&◌, ◌||◌, Option, none, some, List, [], ◌∷◌, ◌==◌,
  if◌then◌else◌, find,
}
use open_vtl.Exec.{Result, ok, err}
use open_vtl.Inventory.{MhvtlLibrary}
use open_vtl.Inventory.Snapshot.{LibrarySnapshot, forget_cart}
use open_vtl.Inventory.Changer.{MtxDrive, MtxSlot, MtxStatus}

pub data DeleteFault : Type 0 where
  no_conf not_declared no_changer changer_unknown in_drive not_found no_free_ie : DeleteFault
  -- another cartridge, in an I/E element
  other_in_map : ℕ → List ℕ → DeleteFault
  move_failed empty_failed context_over not_media remove_failed : DeleteFault

-- What DeleteCart does to the library; a move by the changer's device and the elements' numbers.
pub data DeleteAct : Type 0 where
  move_cart : List ℕ → ℕ → ℕ → DeleteAct
  open_map empty_map close_map remove_media rewrite_contents : DeleteAct

-- What the scan of the elements has seen.
pub record Seen : Type 0 where
  pub src_slot : ℕ
  pub free_ie : ℕ
  pub in_ie : Bool

-- Where the cartridge is: in the MAP, or in a slot that has an I/E element to go to.
pub data Staging : Type 0 where
  in_map : Staging
  from_slot : ℕ → ℕ → Staging

abbrev pub loaded_in : List ℕ → List MtxDrive → Bool
loaded_in label [] = false
loaded_in label (d ∷ ds) = bytes_eq d.label label || loaded_in label ds

-- The switch of the scan, given whether the element holds the label and whether it is an I/E element.
abbrev pub noted_as : Bool → Bool → ℕ → Seen → Seen
noted_as true true n f = record f { in_ie = true }
noted_as true false n f = record f { src_slot = n }
noted_as false true n f = record f { free_ie = (if f.free_ie == 0 then n else f.free_ie) }
noted_as false false n f = f

abbrev pub noted : List ℕ → MtxSlot → Seen → Seen
noted label s f = noted_as (bytes_eq s.label label) s.ie s.num f

abbrev pub is_foreign : List ℕ → MtxSlot → Bool
is_foreign label s = not (bytes_eq s.label label) && s.ie && not (bytes_eq s.label [])

unfoldable pub scan_map : List ℕ → Seen → List MtxSlot → Result DeleteFault Seen
scan_map label f [] = ok f
scan_map label f (s ∷ ss) =
    let rest = scan_map label (noted label s f) ss in
    if is_foreign label s then err (other_in_map s.num s.label) else rest

abbrev pub staged : Result DeleteFault Seen → Result DeleteFault Staging
staged (err e) = err e
staged (ok f) =
    if f.src_slot == 0 && not f.in_ie
    then err not_found
    else (if f.in_ie
        then ok in_map
        else (if f.free_ie == 0 then err no_free_ie else ok (from_slot f.src_slot f.free_ie)))

-- The checks on the changer's status.
unfoldable pub find_staging : List ℕ → Option MtxStatus → Result DeleteFault Staging
unfolding scan_map
find_staging label none = err changer_unknown
find_staging label (some st) =
    if loaded_in label st.drives
    then err in_drive
    else staged (scan_map label (record { src_slot = 0; free_ie = 0; in_ie = false }) st.slots)

-- The last of the libraries that has the id.
unfoldable pub last_declared : ℕ → Option MhvtlLibrary → List MhvtlLibrary → Option MhvtlLibrary
last_declared id found [] = found
last_declared id found (l ∷ ls) = last_declared id (if l.id == id then some l else found) ls

abbrev pub changer_of : Option LibrarySnapshot → Option (List ℕ)
changer_of none = none
changer_of (some l) = some l.library.changer_sg

-- ChangerFor
unfoldable pub changer_for : ℕ → List LibrarySnapshot → Option (List ℕ)
changer_for id libs =
    changer_of (find (λ l. l.library.id == id && not (bytes_eq l.library.changer_sg [])) libs)

abbrev pub listed_in : List ℕ → List MtxSlot → Bool
listed_in label [] = false
listed_in label (s ∷ ss) = bytes_eq s.label label || listed_in label ss

abbrev pub is_gone : List ℕ → Option MtxStatus → Bool
is_gone label none = false
is_gone label (some st) = not (listed_in label st.slots)

module _ (World : Type 0) where
  -- What the machine answers. A read leaves the world alone.
  pub record Robot : Type 0 where
    pub parse_conf : World → Option (List MhvtlLibrary)
    pub status : List ℕ → World → Option MtxStatus
    -- whether the act failed
    pub perform : DeleteAct → World → Bool × World
    -- the media directory, its file mam, and the stub of an eviction
    pub media_there : World → Bool
    pub has_mam : World → Bool
    pub has_stub : World → Bool
    -- a second, or the end of the context
    pub pause : World → Bool × World

  -- The acts in order, each with whether it failed.
  pub record Deleted : Type 0 where
    pub result : Result DeleteFault (Unit {0})
    pub acts : List (DeleteAct × Bool)
    pub world : World
    pub snapshot : List LibrarySnapshot

  module _ (robot : Robot) (rounds id : ℕ) (label : List ℕ) (libs : List LibrarySnapshot) where
    abbrev pub stopped : DeleteFault → World → Deleted
    stopped e w = record { result = err e; acts = []; world = w; snapshot = libs }

    abbrev pub after_act : DeleteAct → (Bool → World → Deleted) → Bool × World → Deleted
    after_act a next (failed, w) = let o = next failed w in record o { acts = (a, failed) ∷ o.acts }

    unfoldable pub doing : DeleteAct → World → (Bool → World → Deleted) → Deleted
    doing a w next = after_act a next (robot.perform a w)

    -- The contents are kept for the next start, and the snapshot forgets the cartridge.
    unfoldable pub persist : World → Deleted
    unfolding forget_cart
    persist w = doing rewrite_contents w (λ failed w'. record {
      result = ok tt;
      acts = [];
      world = w';
      snapshot = forget_cart id label libs;
    })

    -- The media, if they look like mhVTL's.
    unfoldable pub purge : World → Deleted
    unfolding persist
    purge w =
        if not (robot.media_there w)
        then persist w
        else (if not (robot.has_mam w) && not (robot.has_stub w)
            then stopped not_media w
            else doing remove_media w
                (λ failed w'. if failed then stopped remove_failed w' else persist w'))

    abbrev pub paused : (World → Deleted) → Bool × World → Deleted
    paused again (true, w) = stopped context_over w
    paused again (false, w) = again w

    -- Until the changer no longer lists the cartridge, or the time is over.
    unfoldable pub confirm : List ℕ → ℕ → World → Deleted
    unfolding purge
    confirm sg zero w = purge w
    confirm sg (suc k) w =
        let again = confirm sg k in
        if is_gone label (robot.status sg w) then purge w else paused again (robot.pause w)

    unfoldable pub undo_move : List ℕ → Staging → World → Deleted
    undo_move sg in_map w = stopped empty_failed w
    undo_move sg (from_slot src ie) w = doing (move_cart sg ie src) w (λ _. stopped empty_failed)

    unfoldable pub clear : List ℕ → Staging → World → Deleted
    unfolding confirm undo_move
    clear sg g w = doing open_map w (λ _ w1. doing empty_map w1 (λ failed w2.
        if failed then undo_move sg g w2 else doing close_map w2 (λ _. confirm sg rounds)))

    unfoldable pub stage_cart : List ℕ → World → Result DeleteFault Staging → Deleted
    unfolding clear
    stage_cart sg w (err e) = stopped e w
    stage_cart sg w (ok in_map) = clear sg in_map w
    stage_cart sg w (ok (from_slot src ie)) =
        doing (move_cart sg src ie) w
          (λ failed w'. if failed then stopped move_failed w' else clear sg (from_slot src ie) w')

    abbrev pub with_changer : World → Option MhvtlLibrary → Option (List ℕ) → Deleted
    unfolding stage_cart find_staging
    with_changer w none sg = stopped not_declared w
    with_changer w (some lib) none = stopped no_changer w
    with_changer w (some lib) (some sg) = stage_cart sg w (find_staging label (robot.status sg w))

    abbrev pub with_conf : World → Option (List MhvtlLibrary) → Deleted
    unfolding with_changer last_declared changer_for
    with_conf w none = stopped no_conf w
    with_conf w (some conf) = with_changer w (last_declared id none conf) (changer_for id libs)

    unfoldable pub delete_cart : World → Deleted
    unfolding with_conf
    delete_cart w = with_conf w (robot.parse_conf w)
