-- ===== src/Tests/Cartridges.antt =====
-- Cartridges of a small changer: the next label, a free slot, a deletion (openvtld/internal/inventory).
use open_vtl.Prelude.Text.{ascii}
use open_vtl.Prelude.{◌⊎◌, ℕ, ◌+◌, ◌≡◌, refl, Bool, true, false, some, List, [], ◌∷◌, String, find}
use open_vtl.Exec.{ok}
use open_vtl.Inventory.Snapshot.{LibrarySnapshot}
use open_vtl.Inventory.Changer.{MtxSlot, MtxStatus, find_free_slot}
use open_vtl.Inventory.Changer.Free.{expected_slot, find_free_slot_lem}
use open_vtl.Inventory.Labels.{next_label, highest}
use open_vtl.Inventory.Labels.Next.{AllBelow, SomeNumbered, Proposed, next_label_lem}
use open_vtl.Inventory.Deletion.{
  DeleteAct, move_cart, open_map, empty_map, close_map, remove_media, rewrite_contents, Robot,
  Deleted, delete_cart, doing,
}
use open_vtl.Inventory.Deletion.Cleared.{Careful, delete_cart-Careful}
use open_vtl.Tests.Inventory.{first_library}

unfoldable pub slot_with : ℕ → Bool → String → MtxSlot
slot_with n ie label = record { num = n; ie = ie; label = ascii label }

-- Drive 0 holds a cartridge of slot 1; slot 2 holds another; slot 3 and the I/E element are empty.
unfoldable pub changer_status : MtxStatus
unfolding slot_with
changer_status = record {
  drives = record { num = 0; label = ascii "OVT001L5"; source = 1 } ∷ [];
  slots =
      slot_with 1 false ""
      ∷ slot_with 2 false "OVT002L5"
      ∷ slot_with 3 false ""
      ∷ slot_with 4 true ""
      ∷ [];
}

find_free_slot_test : find_free_slot (some changer_status) (ascii "OVT003L5") ≡ ok 3
unfolding find_free_slot changer_status
find_free_slot_test = refl

find_free_slot_example :
    find_free_slot (some changer_status) (ascii "OVT003L5")
    ≡ expected_slot (ascii "OVT003L5") changer_status.drives changer_status.slots
find_free_slot_example = find_free_slot_lem changer_status (ascii "OVT003L5")

abbrev two_labels : List (List ℕ)
two_labels = ascii "OVT001L5" ∷ ascii "OVT002L5" ∷ []

next_label_test : next_label two_labels (ascii "OVT") (ascii "L5") ≡ ascii "OVT003L5"
unfolding next_label
next_label_test = refl

next_label_example :
    let top = highest (ascii "OVT") (ascii "L5") 0 two_labels in
    AllBelow (ascii "OVT") (ascii "L5") top two_labels
    × ((top ≡ 0) ⊎ SomeNumbered (ascii "OVT") (ascii "L5") top two_labels)
    × Proposed two_labels
        (ascii "OVT")
        (ascii "L5")
        (top + 1)
        1000
        (next_label two_labels (ascii "OVT") (ascii "L5"))
next_label_example = next_label_lem two_labels (ascii "OVT") (ascii "L5")

-- A second status: the cartridge is gone once the MAP was emptied.
obey : DeleteAct → MtxStatus → MtxStatus
obey empty_map st = record st { slots = [] }
obey _ st = st

abbrev robot : Robot MtxStatus
unfolding obey
robot = record {
  parse_conf = λ _. some (first_library ∷ []);
  status = λ _ st. some st;
  perform = λ a st. (false, obey a st);
  media_there = λ _. true;
  has_mam = λ _. true;
  has_stub = λ _. false;
  pause = λ st. (false, st);
}

abbrev pub live_library : LibrarySnapshot
live_library = record {
  library = record {
    id = 10;
    product = ascii "3573-TL";
    serial = ascii "OVTL000001";
    home_dir = ascii "/pool";
    num_slots = 3;
    num_ie = 1;
    num_drives = 1;
    changer_sg = ascii "/dev/sg1";
    live = true;
  };
  drives = [];
  slots = [];
  carts = [];
}

abbrev deleted : Deleted MtxStatus
deleted = delete_cart MtxStatus robot 15 10 (ascii "OVT002L5") (live_library ∷ []) changer_status

delete_cart_test :
    deleted.acts
    ≡ (move_cart (ascii "/dev/sg1") 2 4, false)
      ∷ (open_map, false)
      ∷ (empty_map, false)
      ∷ (close_map, false)
      ∷ (remove_media, false)
      ∷ (rewrite_contents, false)
      ∷ []
unfolding delete_cart doing robot find changer_status
delete_cart_test = refl

delete_cart_example :
    Careful MtxStatus robot 15 10 (ascii "OVT002L5") (live_library ∷ []) changer_status deleted
delete_cart_example =
    delete_cart-Careful MtxStatus robot 15 10 (ascii "OVT002L5") (live_library ∷ []) changer_status
