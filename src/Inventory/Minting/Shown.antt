-- ===== src/Inventory/Minting/Shown.antt =====
-- The search for the cartridge in the I/E elements, in parkMappedMedia of openvtld/internal/inventory/adopt.go.
use open_vtl.Prelude.Text.{bytes_eq}
use open_vtl.Prelude.{
  ℕ, ◌≡◌, refl, Bool, true, false, not, ◌&&◌, ◌||◌, Option, none, some, List, [], ◌∷◌, ◌==◌, ◌⊎◌,
  inl, inr, arith, if◌then◌else◌,
}
use open_vtl.Inventory.Changer.{MtxSlot, MtxStatus}
use open_vtl.Inventory.Minting.{ie_holding, ie_seen}

-- An I/E element of the number holds the label.
abbrev pub shown_in : List ℕ → ℕ → List MtxSlot → Bool
shown_in label n [] = false
shown_in label n (s ∷ ss) = (s.ie && s.num == n && bytes_eq s.label label) || shown_in label n ss

shown_or_later :
    (label : List ℕ) (found n : ℕ) (s : MtxSlot) (ss : List MtxSlot) (held : Bool)
    → s.ie && bytes_eq s.label label ≡ held
    → (n ≡ (if held then s.num else found)) ⊎ (shown_in label n ss ≡ true)
    → (n ≡ found) ⊎ (shown_in label n (s ∷ ss) ≡ true)
shown_or_later label found n s ss true held (inl here) = inr (ground arith)
shown_or_later label found n s ss false held (inl here) = inl here
shown_or_later label found n s ss held h (inr later) = inr (ground arith)

is_shown :
    (label : List ℕ) (found : ℕ) (ss : List MtxSlot)
    → (ie_holding label found ss ≡ found) ⊎ (shown_in label (ie_holding label found ss) ss ≡ true)
is_shown label found [] = inl refl
is_shown label found (s ∷ ss) =
    shown_or_later label found _ s ss (s.ie && bytes_eq s.label label) refl
      (is_shown label (if s.ie && bytes_eq s.label label then s.num else found) ss)

pub ie_seen_lem :
    (label : List ℕ) (o : Option MtxStatus)
    → not (ie_seen label o == 0) ≡ true
    → (st : MtxStatus) × (o ≡ some st) × (shown_in label (ie_seen label o) st.slots ≡ true)
ie_seen_lem label none found = absurd cc
ie_seen_lem label (some st) found = elim (is_shown label 0 st.slots) [
  | inl nowhere ↦ absurd (ground (arith, nowhere))
  | inr shown ↦ (st, refl, shown)
]
