-- ===== src/Tests/Minting.antt =====
-- A cartridge minted and one adopted in a small changer (openvtld/internal/inventory: mint.go, adopt.go).
use open_vtl.Prelude.Text.{ascii}
use open_vtl.Prelude.{◌≡◌, refl, true, false, some, [], ◌∷◌, ◌++◌, find}
use open_vtl.Exec.{ok}
use open_vtl.Inventory.Changer.{MtxStatus}
use open_vtl.Inventory.Models.{drive_model_by_product}
use open_vtl.Inventory.Minting.{
  MintAct, make_tape, put_placeholder, open_map, load_map, close_map, move_cart, drop_placeholder,
  rewrite_contents, Station, Minted, mint_cart, adopt_cart, run_act,
}
use open_vtl.Inventory.Minting.Parked.{Settled, mint_cart-Settled, adopt_cart-Settled}
use open_vtl.Tests.Inventory.{first_library}
use open_vtl.Tests.Cartridges.{slot_with, changer_status, live_library}

-- The cartridge appears in the I/E element once the MAP was loaded.
follow : MintAct → MtxStatus → MtxStatus
unfolding slot_with
follow load_map st = record st { slots = st.slots ++ slot_with 5 true "OVT003L5" ∷ [] }
follow _ st = st

abbrev station : Station MtxStatus
unfolding follow
station = record {
  parse_conf = λ _. some (first_library ∷ []);
  status = λ _ st. some st;
  perform = λ a st. (false, follow a st);
  media_there = λ _ _. false;
  pause = λ st. (false, st);
}

abbrev minted : Minted MtxStatus
minted =
    mint_cart MtxStatus station 30 10 (ascii "OVT003L5") [] (live_library ∷ []) 1500000
      changer_status

mint_cart_test :
    (minted.result ≡ ok 3)
    × (minted.acts
        ≡ (make_tape (ascii "/pool") 1500000 "LTO5", false)
          ∷ (put_placeholder (ascii "/pool"), false)
          ∷ (open_map, false)
          ∷ (load_map, false)
          ∷ (close_map, false)
          ∷ (move_cart 5 3, false)
          ∷ (drop_placeholder (ascii "/pool"), false)
          ∷ (rewrite_contents, false)
          ∷ [])
unfolding mint_cart run_act station find changer_status drive_model_by_product
mint_cart_test = (refl, refl)

mint_cart_example :
    Settled MtxStatus station 30 10
      (ascii "OVT003L5")
      []
      (live_library ∷ [])
      false
      changer_status
      minted
mint_cart_example =
    mint_cart-Settled MtxStatus station 30 10 (ascii "OVT003L5") [] (live_library ∷ []) 1500000
      changer_status

abbrev stocked : Station MtxStatus
stocked = record station { media_there = λ _ _. true }

abbrev adopted : Minted MtxStatus
adopted =
    adopt_cart MtxStatus stocked 30 10 (ascii "OVT003L5") [] (live_library ∷ []) changer_status

adopt_cart_test :
    (adopted.result ≡ ok 3)
    × (adopted.acts
        ≡ (put_placeholder (ascii "/pool"), false)
          ∷ (open_map, false)
          ∷ (load_map, false)
          ∷ (close_map, false)
          ∷ (move_cart 5 3, false)
          ∷ (drop_placeholder (ascii "/pool"), false)
          ∷ (rewrite_contents, false)
          ∷ [])
unfolding adopt_cart run_act station find changer_status
adopt_cart_test = (refl, refl)

adopt_cart_example :
    Settled MtxStatus stocked 30 10
      (ascii "OVT003L5")
      []
      (live_library ∷ [])
      true
      changer_status
      adopted
adopt_cart_example =
    adopt_cart-Settled MtxStatus stocked 30 10 (ascii "OVT003L5") [] (live_library ∷ [])
      changer_status
