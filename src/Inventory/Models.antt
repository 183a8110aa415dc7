-- ===== src/Inventory/Models.antt =====
-- openvtld/internal/inventory/models.go: the catalogue of drive and library models.
use open_vtl.Prelude.Text.{ascii, bytes_eq}
use open_vtl.Prelude.{
  ℕ, String, str_eq, Bool, true, false, Option, none, some, List, [], ◌∷◌, find, not, remove_rows,
}

pub record DriveModel : Type 0 where
  pub product : List ℕ
  pub vendor : String
  pub display : String
  pub family : String
  pub density : String
  pub suffix : List ℕ
  pub capacity_mb : ℕ
  pub ibmi : Bool
  pub note : String

pub record LibraryVariant : Type 0 where
  pub product : List ℕ
  pub family : String
  pub display : String
  pub creatable : Bool

pub record LibraryModel : Type 0 where
  pub vendor : String
  pub display : String
  pub variants : List LibraryVariant
  pub ibmi : Bool
  pub creatable : Bool
  pub max_drives : ℕ
  pub note : String

drive : String → String → String → String → String → String → ℕ → Bool → String → DriveModel
drive product vendor display family density suffix capacity ibmi note = record {
  product = ascii product;
  vendor = vendor;
  display = display;
  family = family;
  density = density;
  suffix = ascii suffix;
  capacity_mb = capacity;
  ibmi = ibmi;
  note = note;
}

unfoldable pub drive_models : List DriveModel
unfolding drive
drive_models =
    drive "ULT3580-TD3" "IBM" "IBM LTO-3 (ULT3580-TD3)" "LTO" "LTO3" "L3" 400000 true ""
    ∷ drive "ULT3580-TD4" "IBM" "IBM LTO-4 (ULT3580-TD4)" "LTO" "LTO4" "L4" 800000 true ""
    ∷ drive "ULT3580-TD5" "IBM" "IBM LTO-5 (ULT3580-TD5)" "LTO" "LTO5" "L5" 1500000 true
        "validated against IBM i"
    ∷ drive "ULT3580-TD6" "IBM" "IBM LTO-6 (ULT3580-TD6)" "LTO" "LTO6" "L6" 2500000 true ""
    ∷ drive "ULT3580-TD7" "IBM" "IBM LTO-7 (ULT3580-TD7)" "LTO" "LTO7" "L7" 6000000 true ""
    ∷ drive "ULT3580-TD8" "IBM" "IBM LTO-8 (ULT3580-TD8)" "LTO" "LTO8" "L8" 12000000 true ""
    ∷ drive "ULT3580-TD9" "IBM" "IBM LTO-9 (ULT3580-TD9)" "LTO" "LTO8" "L8" 18000000 true
        "installed mktape has no LTO9 media type — carts are minted as L8, which an LTO-9 drive writes"
    ∷ drive "03592J1A" "IBM" "IBM 3592 J1A" "3592" "J1A" "JA" 300000 true ""
    ∷ drive "03592E05" "IBM" "IBM 3592 E05 (TS1120)" "3592" "E05" "JA" 500000 true ""
    ∷ drive "03592E06" "IBM" "IBM 3592 E06 (TS1130)" "3592" "E06" "JB" 1000000 true ""
    ∷ drive "03592E07" "IBM" "IBM 3592 E07 (TS1140)" "3592" "E07" "JB" 4000000 true ""
    ∷ drive "T10000B" "STK" "STK T10000B" "T10K" "T10KB" "T1" 1000000 false
        "IBM i does not attach STK drives"
    ∷ []

variant : String → String → String → Bool → LibraryVariant
variant product family display creatable = record {
  product = ascii product;
  family = family;
  display = display;
  creatable = creatable;
}

ibm_03584_variants : List LibraryVariant
unfolding variant
ibm_03584_variants =
    variant "03584L32" "LTO" "3584-L32 (LTO base frame)" true
    ∷ variant "03584L52" "LTO" "3584-L52 (LTO base frame)" false
    ∷ variant "03584L53" "LTO" "3584-L53 (LTO base frame)" false
    ∷ variant "03584D32" "LTO" "3584-D32 (LTO expansion frame)" false
    ∷ variant "03584D52" "LTO" "3584-D52 (LTO expansion frame)" false
    ∷ variant "03584D53" "LTO" "3584-D53 (LTO expansion frame)" false
    ∷ variant "03584L22" "3592" "3584-L22 (3592 base frame)" false
    ∷ variant "03584L23" "3592" "3584-L23 (3592 base frame)" false
    ∷ variant "03584D22" "3592" "3584-D22 (3592 expansion frame)" false
    ∷ variant "03584D23" "3592" "3584-D23 (3592 expansion frame)" false
    ∷ []

-- A model that mhVTL emulates and IBM i does not attach.
listed_only : String → String → LibraryModel
listed_only vendor display = record {
  vendor = vendor;
  display = display;
  variants = [];
  ibmi = false;
  creatable = false;
  max_drives = 0;
  note = "emulated by mhVTL but not attachable by IBM i";
}

unfoldable pub library_models : List LibraryModel
unfolding variant ibm_03584_variants listed_only
library_models =
    record {
      vendor = "IBM";
      display = "TS3100/TS3200 (3573)";
      variants = variant "3573-TL" "LTO" "3573-TL" true ∷ [];
      ibmi = true;
      creatable = true;
      max_drives = 4;
      note = "the library model proven against the IBM i on this project";
    }
    ∷ record {
      vendor = "IBM";
      display = "TS3500 (3584)";
      variants = ibm_03584_variants;
      ibmi = true;
      creatable = true;
      max_drives = 12;
      note = "L32 field-validated against the IBM i 2026-07-18 (vary on + SAVLIB over FC)";
    }
    ∷ listed_only "STK" "STK L20/L40/L80 · L-series · SL-series"
    ∷ listed_only "HP" "HP EML E-series · MSL series"
    ∷ listed_only "Spectra" "Spectra Treefrog · Gator · T-series"
    ∷ listed_only "Quantum" "Scalar series · Overland NEO"
    ∷ []

unfoldable pub drive_model_by_product : List ℕ → Option DriveModel
unfolding drive_models
drive_model_by_product product = find (λ d. bytes_eq d.product product) drive_models

abbrev pub of_model :
    LibraryModel
    → Option LibraryVariant
    → Option (LibraryModel × LibraryVariant)
    → Option (LibraryModel × LibraryVariant)
of_model m (some v) rest = some (m, v)
of_model m none rest = rest

unfoldable pub variant_in : List ℕ → List LibraryModel → Option (LibraryModel × LibraryVariant)
variant_in product [] = none
variant_in product (m ∷ ms) =
    of_model m (find (λ v. bytes_eq v.product product) m.variants) (variant_in product ms)

unfoldable pub library_variant_by_product : List ℕ → Option (LibraryModel × LibraryVariant)
unfolding variant_in library_models
library_variant_by_product product = variant_in product library_models

unfoldable pub compatible_drives : LibraryVariant → List DriveModel
unfolding drive_models
compatible_drives v = remove_rows (λ d. not (str_eq d.family v.family)) drive_models
