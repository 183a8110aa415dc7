-- ===== src/Tests/Inventory.antt =====
-- A library created beside one that is declared (openvtld/internal/inventory/libcreate.go).
use open_vtl.Prelude.Text.{ascii}
use open_vtl.Prelude.{
  find, ℕ, ◌+◌, ◌≡◌, refl, true, some, [], ◌∷◌, String, if◌then◌else◌, ◌==◌, arith,
}
use open_vtl.Exec.{ok}
use open_vtl.Inventory.{MhvtlDrive, MhvtlLibrary}
use open_vtl.Inventory.Models.{
  library_variant_by_product, drive_model_by_product, LibraryModel, DriveModel,
}
use open_vtl.Inventory.Creation.{CreateLibrarySpec, create_library, with_defaults}
use open_vtl.Inventory.Creation.Checked.{Fits}
use open_vtl.Inventory.Creation.Unique.{Fresh, create_library_lem}

abbrev first_drive : MhvtlDrive
first_drive = record {
  queue_id = 11;
  target = 1;
  library_id = 10;
  slot = 1;
  serial = ascii "OVTD000001";
  product = ascii "ULT3580-TD5";
}

abbrev pub first_library : MhvtlLibrary
first_library = record {
  id = 10;
  target = 0;
  serial = ascii "OVTL000001";
  product = ascii "3573-TL";
  home_dir = ascii "/pool";
  drives = first_drive ∷ [];
  barcodes = [];
}

abbrev spec_of_two : CreateLibrarySpec
spec_of_two = record {
  product = ascii "3573-TL";
  drive_product = ascii "ULT3580-TD5";
  num_drives = 2;
  home_dir = ascii "/pool2";
  num_slots = 0;
  num_map = 0;
  serial = ascii "OVTL000007";
}

abbrev tl_3573 : LibraryModel
tl_3573 = record {
  vendor = "IBM";
  display = "TS3100/TS3200 (3573)";
  variants =
      record { product = ascii "3573-TL"; family = "LTO"; display = "3573-TL"; creatable = true }
      ∷ [];
  ibmi = true;
  creatable = true;
  max_drives = 4;
  note = "the library model proven against the IBM i on this project";
}

abbrev td5 : DriveModel
td5 = record {
  product = ascii "ULT3580-TD5";
  vendor = "IBM";
  display = "IBM LTO-5 (ULT3580-TD5)";
  family = "LTO";
  density = "LTO5";
  suffix = ascii "L5";
  capacity_mb = 1500000;
  ibmi = true;
  note = "validated against IBM i";
}

second_drive : ℕ → String → MhvtlDrive
second_drive i serial = record {
  queue_id = 20 + i;
  target = 2 + i;
  library_id = 20;
  slot = i;
  serial = ascii serial;
  product = ascii "ULT3580-TD5";
}

abbrev second_library : MhvtlLibrary
unfolding second_drive
second_library = record {
  id = 20;
  target = 2;
  serial = ascii "OVTL000007";
  product = ascii "3573-TL";
  home_dir = ascii "/pool2";
  drives = second_drive 1 "OVTD000000" ∷ second_drive 2 "OVTD000002" ∷ [];
  barcodes = [];
}

created :
    create_library true (some (first_library ∷ [])) spec_of_two (λ n. if n == 0 then 0 else n + 1)
    ≡ ok (tl_3573, td5, second_library)
unfolding create_library library_variant_by_product find drive_model_by_product second_library
created = refl

create_library_example :
    Fresh (with_defaults spec_of_two) (first_library ∷ []) second_library
    × Fits (with_defaults spec_of_two) tl_3573 td5
create_library_example =
    create_library_lem true (first_library ∷ []) spec_of_two (λ n. if n == 0 then 0 else n + 1)
      tl_3573 td5 second_library created ((ground arith, tt), (tt, tt))
      ((ground arith, tt), (tt, tt))
