-- ===== src/Tests/Polled.antt =====
-- A status applied to the snapshot of a small library (openvtld/internal/inventory/engine.go).
use open_vtl.Prelude.Text.{ascii}
use open_vtl.Prelude.{ℕ, String, ◌≡◌, refl, List, [], ◌∷◌, ◌++◌}
use open_vtl.Inventory.Snapshot.{Cart, LibrarySnapshot}
use open_vtl.Inventory.Polled.{drive_loaded, cart_moved, apply_mtx}
use open_vtl.Inventory.Polled.Stable.{apply_mtx_twice}
use open_vtl.Inventory.Media.{MediaInfo, apply_media}
use open_vtl.Inventory.Media.Listed.{refreshed, added, apply_media_lem}
use open_vtl.Tests.Cartridges.{changer_status, live_library}

cart_at : String → String → Cart
cart_at label location = record {
  label = ascii label;
  library = 10;
  size_bytes = 0;
  phys_bytes = 0;
  modified = 0;
  location = ascii location;
}

abbrev stale_library : LibrarySnapshot
unfolding cart_at
stale_library = record live_library {
  drives =
      record {
        index = 0;
        library = 10;
        queue_id = 11;
        serial = ascii "OVTD000001";
        product = ascii "ULT3580-TD5";
        sg = ascii "/dev/sg2";
        st = ascii "/dev/st0";
        loaded = [];
        source_slot = 0;
        activity = "idle";
      }
      ∷ [];
  carts =
      cart_at "OVT001L5" "storage:1"
      ∷ cart_at "OVT002L5" "storage:2"
      ∷ cart_at "OVT009L5" "ie:4"
      ∷ [];
}

apply_mtx_test :
    (apply_mtx changer_status stale_library).0
    ≡ drive_loaded (ascii "OVT001L5") 0
      ∷ cart_moved (ascii "OVT001L5") (ascii "storage:1") (ascii "drive:0")
      ∷ cart_moved (ascii "OVT009L5") (ascii "ie:4") (ascii "missing")
      ∷ []
unfolding apply_mtx changer_status stale_library
apply_mtx_test = refl

apply_mtx_twice_example :
    apply_mtx changer_status (apply_mtx changer_status stale_library).1
    ≡ ([], (apply_mtx changer_status stale_library).1)
unfolding changer_status
apply_mtx_twice_example = apply_mtx_twice changer_status stale_library (tt, tt)

media_of : String → ℕ → MediaInfo
media_of label size = record {
  label = ascii label;
  size_bytes = size;
  phys_bytes = size;
  modified = 1;
}

abbrev two_media : List MediaInfo
unfolding media_of
two_media = media_of "OVT009L5" 7 ∷ media_of "OVT004L5" 9 ∷ []

apply_media_test :
    apply_media 10 two_media stale_library.carts []
    ≡ cart_at "OVT001L5" "storage:1"
      ∷ cart_at "OVT002L5" "storage:2"
      ∷ record (cart_at "OVT009L5" "ie:4") { size_bytes = 7; phys_bytes = 7; modified = 1 }
      ∷ record (cart_at "OVT004L5" "missing") { size_bytes = 9; phys_bytes = 9; modified = 1 }
      ∷ []
unfolding apply_media stale_library two_media
apply_media_test = refl

apply_media_example :
    apply_media 10 two_media stale_library.carts []
    ≡ refreshed two_media stale_library.carts ++ added 10 two_media stale_library.carts
apply_media_example = apply_media_lem 10 two_media stale_library.carts
