-- ===== src/Inventory/Deletion/Cleared.antt =====
-- What DeleteCart of openvtld/internal/inventory/delete.go may do, and when.
use open_vtl.Prelude.{
  ℕ, zero, suc, ◌≡◌, refl, Bool, true, false, not, ◌&&◌, Option, none, some, List, [], ◌∷◌,
  if◌then◌else◌, Bool-cases, ◌⊎◌, inl, inr,
}
use open_vtl.Exec.{Result, ok, err}
use open_vtl.Inventory.Snapshot.{LibrarySnapshot}
use open_vtl.Inventory.{MhvtlLibrary}
use open_vtl.Inventory.Changer.{MtxStatus}
use open_vtl.Inventory.Deletion.{
  DeleteFault, DeleteAct, move_cart, open_map, empty_map, close_map, remove_media, rewrite_contents,
  Staging, in_map, from_slot, find_staging, Robot, Deleted, stopped, after_act, doing, persist,
  changer_for, purge, paused, confirm, undo_move, clear, stage_cart, with_changer, with_conf,
  delete_cart, is_gone,
}
use open_vtl.Inventory.Deletion.{remove_failed, move_failed, not_media, context_over, empty_failed}
use open_vtl.Inventory.Deletion.Scan.{Fit, find_staging-Fit}

-- How far the deletion of a cartridge has come.
pub data Phase : Type 0 where
  to_stage staged refused returned cleared removed rewritten : Phase

abbrev pub first_phase : Staging → Phase
first_phase in_map = staged
first_phase (from_slot a b) = to_stage

abbrev pub after_move : Phase → Bool → Phase
after_move to_stage false = staged
after_move refused failed = returned
after_move p failed = p

-- The phase that an act leads to, given whether it failed.
abbrev pub next_phase : Phase → DeleteAct → Bool → Phase
next_phase p (move_cart s a b) failed = after_move p failed
next_phase p open_map failed = p
next_phase p empty_map failed = if failed then refused else cleared
next_phase p close_map failed = p
next_phase p remove_media failed = if failed then p else removed
next_phase p rewrite_contents failed = rewritten

-- A failure may leave the cartridge where it is in this phase: not in the I/E element that it was moved to, when the
-- MAP could not be emptied.
abbrev pub MayFail : Phase → Staging → Type 0
MayFail to_stage g = Unit {0}
MayFail staged g = Unit {0}
MayFail refused in_map = Unit {0}
MayFail refused (from_slot a b) = ⊥
MayFail returned g = Unit {0}
MayFail cleared g = Unit {0}
MayFail removed g = Unit {0}
MayFail rewritten g = Unit {0}

abbrev pub IsFailure : Result DeleteFault (Unit {0}) → Type 0
IsFailure (err e) = Unit {0}
IsFailure (ok _) = ⊥

module _ (World : Type 0) (robot : Robot World) (rounds id : ℕ) (label : List ℕ)
    (libs : List LibrarySnapshot) where
  -- The phase in which an act may be done, and on what. A move is on the changer, from the slot to the I/E element, or
  -- back once the emptying of the MAP has failed. The contents are rewritten without the media.
  abbrev pub Allowed : List ℕ → Staging → Phase → DeleteAct → Type 0
  Allowed sg g p (move_cart s a b) =
      (s ≡ sg) × (((p ≡ to_stage) × (g ≡ from_slot a b)) ⊎ ((p ≡ refused) × (g ≡ from_slot b a)))
  Allowed sg g p open_map = p ≡ staged
  Allowed sg g p empty_map = p ≡ staged
  Allowed sg g p close_map = p ≡ cleared
  Allowed sg g p remove_media = p ≡ cleared
  Allowed sg g p rewrite_contents =
      (p ≡ removed) ⊎ ((p ≡ cleared) × ((w : World) × (robot.media_there w ≡ false)))

  -- Acts and result: every act is allowed when it is done, and a success follows the rewriting of the contents.
  abbrev pub Traced :
      List ℕ → Staging → Phase → List (DeleteAct × Bool) → Result DeleteFault (Unit {0}) → Type 0
  Traced sg g p [] (err e) = MayFail p g
  Traced sg g p [] (ok _) = p ≡ rewritten
  Traced sg g p ((a, failed) ∷ rest) r =
      Allowed sg g p a × Traced sg g (next_phase p a failed) rest r

  module _ (sg : List ℕ) (g : Staging) where
    pub record IsTraced (p : Phase) (o : Deleted World) : Type 0 where
      pub traced : Traced sg g p o.acts o.result

    halted :
        (p : Phase) (e : DeleteFault) (w : World)
        → MayFail p g
        → IsTraced p (stopped World robot rounds id label libs e w)
    halted p e w may = record { traced = may }

    after_act-IsTraced :
        (p : Phase) (a : DeleteAct) (next : Bool → World → Deleted World) (r : Bool × World)
        → Allowed sg g p a
        → ((failed : Bool) (w : World) → IsTraced (next_phase p a failed) (next failed w))
        → IsTraced p (after_act World robot rounds id label libs a next r)
    after_act-IsTraced p a next (failed, w) allowed next_is = record {
      traced = (allowed, (next_is failed w).traced);
    }

    doing-IsTraced :
        (p : Phase) (a : DeleteAct) (w : World) (next : Bool → World → Deleted World)
        → Allowed sg g p a
        → ((failed : Bool) (w' : World) → IsTraced (next_phase p a failed) (next failed w'))
        → IsTraced p (doing World robot rounds id label libs a w next)
    unfolding doing
    doing-IsTraced p a w next = after_act-IsTraced p a next (robot.perform a w)

    persist-IsTraced :
        (p : Phase) (w : World)
        → Allowed sg g p rewrite_contents
        → IsTraced p (persist World robot rounds id label libs w)
    unfolding persist
    persist-IsTraced p w allowed =
        doing-IsTraced p rewrite_contents _ _ allowed (λ _ _. record { traced = refl })

    removed-IsTraced :
        (failed : Bool) (w : World)
        → IsTraced (if failed then cleared else removed) (
            if failed
            then stopped World robot rounds id label libs remove_failed w
            else persist World robot rounds id label libs w)
    removed-IsTraced true w = halted cleared remove_failed w tt
    removed-IsTraced false w = persist-IsTraced removed w (inl refl)

    purge-IsTraced : (w : World) → IsTraced cleared (purge World robot rounds id label libs w)
    unfolding purge
    purge-IsTraced w = elim (Bool-cases (robot.media_there w)) [
      | inr absent ↦ rw absent (persist-IsTraced cleared w (inr (refl, (w, absent))))
      | inl there ↦ elim (Bool-cases (not (robot.has_mam w) && not (robot.has_stub w))) [
        | inl unlike ↦ rw there (rw unlike (halted cleared not_media w tt))
        | inr alike ↦
            rw there (rw alike (doing-IsTraced cleared remove_media _ _ refl removed-IsTraced))
      ]
    ]

    paused-IsTraced :
        (again : World → Deleted World) (r : Bool × World)
        → ((w : World) → IsTraced cleared (again w))
        → IsTraced cleared (paused World robot rounds id label libs again r)
    paused-IsTraced again (true, w) h = halted cleared context_over w tt
    paused-IsTraced again (false, w) h = h w

    confirm-IsTraced :
        (k : ℕ) (w : World) → IsTraced cleared (confirm World robot rounds id label libs sg k w)
    unfolding confirm
    confirm-IsTraced zero w = purge-IsTraced w
    confirm-IsTraced (suc k) w = elim (Bool-cases (is_gone label (robot.status sg w))) [
      | inl gone ↦ rw gone (purge-IsTraced w)
      | inr listed ↦ rw listed (paused-IsTraced _ (robot.pause w) (confirm-IsTraced k))
    ]

    undo_move-IsTraced :
        (h : Staging) (w : World)
        → g ≡ h
        → IsTraced refused (undo_move World robot rounds id label libs sg h w)
    unfolding undo_move
    undo_move-IsTraced in_map w here = halted refused empty_failed w (rw here tt)
    undo_move-IsTraced (from_slot src ie) w here =
        doing-IsTraced refused (move_cart sg ie src) _ _ (refl, inr (refl, here))
          (λ _ w'. halted returned empty_failed w' tt)

    clear-IsTraced : (w : World) → IsTraced staged (clear World robot rounds id label libs sg g w)
    unfolding clear
    clear-IsTraced w =
        doing-IsTraced staged open_map _ _ refl
          (λ _ w1. doing-IsTraced staged empty_map _ _ refl emptied)
      where
        emptied :
            (failed : Bool) (w2 : World)
            → IsTraced (if failed then refused else cleared) (
                if failed
                then undo_move World robot rounds id label libs sg g w2
                else doing World robot rounds id label libs close_map w2
                    (λ _. confirm World robot rounds id label libs sg rounds))
        emptied true w2 = undo_move-IsTraced g w2 refl
        emptied false w2 = doing-IsTraced cleared close_map _ _ refl (λ _. confirm-IsTraced rounds)

    moved-IsTraced :
        (failed : Bool) (w : World)
        → IsTraced (if failed then to_stage else staged) (
            if failed
            then stopped World robot rounds id label libs move_failed w
            else clear World robot rounds id label libs sg g w)
    moved-IsTraced true w = halted to_stage move_failed w tt
    moved-IsTraced false w = clear-IsTraced w

  stage_cart-IsTraced :
      (sg : List ℕ) (g : Staging) (w : World)
      → IsTraced sg g (first_phase g) (stage_cart World robot rounds id label libs sg w (ok g))
  unfolding stage_cart
  stage_cart-IsTraced sg in_map w = clear-IsTraced sg in_map w
  stage_cart-IsTraced sg (from_slot src ie) w =
      doing-IsTraced sg (from_slot src ie) to_stage (move_cart sg src ie) _ _
        (refl, inl (refl, refl)) (moved sg src ie)
    where
      moved :
          (sg : List ℕ) (src ie : ℕ) (failed : Bool) (w' : World)
          → IsTraced sg (from_slot src ie) (next_phase to_stage (move_cart sg src ie) failed) (
              if failed
              then stopped World robot rounds id label libs move_failed w'
              else clear World robot rounds id label libs sg (from_slot src ie) w')
      moved sg src ie true = moved-IsTraced sg (from_slot src ie) true
      moved sg src ie false = moved-IsTraced sg (from_slot src ie) false

  -- The library's changer, its status that was read before the first act, what it says of the cartridge, and the
  -- acts that follow.
  pub record Checked (w : World) (o : Deleted World) : Type 0 where
    pub sg : List ℕ
    pub changer_is : changer_for id libs ≡ some sg
    pub status : MtxStatus
    pub read : robot.status sg w ≡ some status
    pub staging : Staging
    pub fit : Fit label status staging
    pub trace : IsTraced sg staging (first_phase staging) o

  -- Nothing is done and the deletion fails, or the status was checked.
  abbrev pub Careful : World → Deleted World → Type 0
  Careful w o = ((o.acts ≡ []) × IsFailure o.result) ⊎ Checked w o

  stage_cart-Careful :
      (sg : List ℕ) (w : World) (o : Option MtxStatus) (g : Result DeleteFault Staging)
      → changer_for id libs ≡ some sg
      → robot.status sg w ≡ o
      → find_staging label o ≡ g
      → Careful w (stage_cart World robot rounds id label libs sg w g)
  unfolding stage_cart find_staging
  stage_cart-Careful sg w o (err e) c r h = inl (refl, tt)
  stage_cart-Careful sg w none (ok g) c r h = absurd cc
  stage_cart-Careful sg w (some st) (ok g) c r h = inr record {
    sg = sg;
    changer_is = c;
    status = st;
    read = r;
    staging = g;
    fit = find_staging-Fit label st g h;
    trace = stage_cart-IsTraced sg g w;
  }

  with_changer-Careful :
      (w : World) (lib : Option MhvtlLibrary) (sg : Option (List ℕ))
      → changer_for id libs ≡ sg
      → Careful w (with_changer World robot rounds id label libs w lib sg)
  unfolding with_changer
  with_changer-Careful w none sg c = inl (refl, tt)
  with_changer-Careful w (some lib) none c = inl (refl, tt)
  with_changer-Careful w (some lib) (some sg) c =
      stage_cart-Careful sg w (robot.status sg w) (find_staging label (robot.status sg w)) c refl
        refl

  with_conf-Careful :
      (w : World) (conf : Option (List MhvtlLibrary))
      → Careful w (with_conf World robot rounds id label libs w conf)
  unfolding with_conf
  with_conf-Careful w none = inl (refl, tt)
  with_conf-Careful w (some conf) = with_changer-Careful w _ _ refl

  -- Deleting a cartridge does nothing and fails unless the status of the library's changer, read first, shows that no
  -- drive holds it, that no I/E element holds another one, and that it is in the MAP or in a slot while an I/E
  -- element is without it. From the slot it is moved on that changer to that element; the MAP is opened and emptied
  -- only with it there, and if emptying fails, moving it back is tried, and nothing more is done. Only after an emptied
  -- MAP are its media removed, and a success comes only once they were removed or were not there, and the rewriting of
  -- the contents was tried.
  pub delete_cart-Careful : (w : World) → Careful w (delete_cart World robot rounds id label libs w)
  unfolding delete_cart
  delete_cart-Careful w = with_conf-Careful w (robot.parse_conf w)
