-- ===== src/Inventory.antt =====
-- openvtld/internal/inventory: the libraries that device.conf declares (mhvtlconf.go), and the SCSI
-- devices that answer discovery (scsi.go).
pub mod Snapshot
pub mod Models
pub mod Creation
pub mod Changer
pub mod Labels
pub mod Deletion
pub mod Minting
pub mod Removal
pub mod Polled
pub mod Media
use open_vtl.Prelude.Text.{bytes_eq, starts_with}
use open_vtl.Prelude.{
  ℕ, ◌+◌, String, Bool, true, false, ◌&&◌, ◌||◌, List, [], ◌∷◌, ltb, ◌==◌, if◌then◌else◌, length,
}

pub record MhvtlDrive : Type 0 where
  pub queue_id : ℕ
  pub target : ℕ
  pub library_id : ℕ
  pub slot : ℕ
  pub serial : List ℕ
  pub product : List ℕ

pub record MhvtlLibrary : Type 0 where
  pub id : ℕ
  pub target : ℕ
  pub serial : List ℕ
  pub product : List ℕ
  pub home_dir : List ℕ
  pub drives : List MhvtlDrive
  pub barcodes : List (List ℕ)

-- One row of lsscsi -g, with the serial that sg_vpd reads.
pub record SgDevice : Type 0 where
  pub kind : String
  pub product : List ℕ
  pub serial : List ℕ
  pub sg : List ℕ
  pub aux : List ℕ

-- Leading zeroes are dropped while the text is longer than `n`.
strip_zeroes : ℕ → List ℕ → List ℕ
strip_zeroes n [] = []
strip_zeroes n (c ∷ cs) =
    let rest = strip_zeroes n cs in if ltb n (length (c ∷ cs)) && c == b'0' then rest else c ∷ cs

unfoldable pub serial_matches : List ℕ → List ℕ → Bool
unfolding strip_zeroes starts_with
serial_matches dev conf =
    if bytes_eq dev conf
    then true
    else (if bytes_eq conf [] || ltb (length dev) (length conf)
        then false
        else (let d = strip_zeroes (length conf) dev in
            bytes_eq d conf || (length d == length conf + 4 && starts_with conf d)))
