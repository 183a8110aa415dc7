-- ===== src/Orchestrate/Luns.antt =====
-- openvtld/internal/orchestrate/fc.go: the table of LUNs, the same on every port.
use open_vtl.Prelude.Text.{ascii, decimal, bytes_eq}
use open_vtl.Prelude.{
  ℕ, ◌+◌, String, str_eq, Bool, true, false, ◌&&◌, ◌||◌, Option, none, some, List, [], ◌∷◌, ◌++◌,
  if◌then◌else◌, ℤ, pos, int_eq,
}
use open_vtl.Exec.{Result, ok, err}
use open_vtl.Store.Acls.{Scope}
use open_vtl.Inventory.{MhvtlDrive, MhvtlLibrary, SgDevice, serial_matches}
use open_vtl.Orchestrate.{Fault, half_library, no_discovery, no_live_library}

-- A LUN's backstore; its place in the list is its number.
pub record Binding : Type 0 where
  pub name : List ℕ
  pub dev : List ℕ
  pub lib : ℕ

unfoldable pub changer_name : ℕ → List ℕ
unfolding decimal
changer_name lib = ascii "mhvtl_l" ++ decimal lib ++ ascii "_chgr"

unfoldable pub drive_name : ℕ → ℕ → List ℕ
unfolding decimal
drive_name lib i = ascii "mhvtl_l" ++ decimal lib ++ ascii "_drv" ++ decimal i

-- The last device of a kind that answers to a serial, or "".
unfoldable pub device_for : String → List ℕ → List ℕ → List SgDevice → List ℕ
unfolding serial_matches
device_for kind serial found [] = found
device_for kind serial found (d ∷ ds) =
    device_for kind serial
      (if str_eq d.kind kind && serial_matches d.serial serial then d.sg else found) ds

-- A binding in front of those of the drives after it.
abbrev pub in_front : Binding → Result Fault (List Binding) → Result Fault (List Binding)
in_front b (ok bs) = ok (b ∷ bs)
in_front b (err f) = err f

unfoldable pub drive_bindings :
    List SgDevice → ℕ → ℕ → List MhvtlDrive → Result Fault (List Binding)
unfolding device_for drive_name
drive_bindings devs lib i [] = ok []
drive_bindings devs lib i (d ∷ ds) =
    let rest = drive_bindings devs lib (i + 1) ds in
    let sg = device_for "tape" d.serial [] devs in
    if bytes_eq sg []
    then err (half_library lib i)
    else in_front (record { name = drive_name lib i; dev = sg; lib = lib }) rest

-- A library's changer and its drives; none while its changer is not discovered.
unfoldable pub library_bindings : List SgDevice → MhvtlLibrary → Result Fault (List Binding)
unfolding device_for drive_bindings changer_name
library_bindings devs lib =
    let chgr = device_for "mediumx" lib.serial [] devs in
    if bytes_eq chgr []
    then ok []
    else in_front (record { name = changer_name lib.id; dev = chgr; lib = lib.id })
        (drive_bindings devs lib.id 0 lib.drives)

abbrev pub before_rest : List Binding → Result Fault (List Binding) → Result Fault (List Binding)
before_rest bs (ok more) = ok (bs ++ more)
before_rest bs (err f) = err f

-- The error of the first library that has one.
abbrev pub joined :
    Result Fault (List Binding) → Result Fault (List Binding) → Result Fault (List Binding)
joined (ok bs) rest = before_rest bs rest
joined (err f) rest = err f

unfoldable pub all_bindings : List SgDevice → List MhvtlLibrary → Result Fault (List Binding)
unfolding library_bindings
all_bindings devs [] = ok []
all_bindings devs (l ∷ ls) =
    let rest = all_bindings devs ls in joined (library_bindings devs l) rest

abbrev pub some_binding : Result Fault (List Binding) → Result Fault (List Binding)
some_binding (ok []) = err no_live_library
some_binding (ok (b ∷ bs)) = ok (b ∷ bs)
some_binding (err f) = err f

abbrev pub from_devices : List MhvtlLibrary → Option (List SgDevice) → Result Fault (List Binding)
from_devices libs none = err no_discovery
from_devices libs (some devs) = some_binding (all_bindings devs libs)

-- With no library declared nothing is discovered, and the table is empty.
unfoldable pub expected : List MhvtlLibrary → Option (List SgDevice) → Result Fault (List Binding)
expected [] devs = ok []
expected (l ∷ ls) devs = from_devices (l ∷ ls) devs

abbrev pub holds_int : List ℤ → ℤ → Bool
holds_int [] n = false
holds_int (m ∷ ms) n = int_eq m n || holds_int ms n

-- nil is every library.
unfoldable pub in_library_scope : Scope ℤ → ℕ → Bool
in_library_scope none lib = true
in_library_scope (some libs) lib = holds_int libs (pos lib)

unfoldable pub mapped_from : ℕ → List Binding → Scope ℤ → List ℕ
unfolding in_library_scope
mapped_from lun [] scope = []
mapped_from lun (b ∷ bs) scope =
    let rest = mapped_from (lun + 1) bs scope in
    if in_library_scope scope b.lib then lun ∷ rest else rest

unfoldable pub mapped_luns : List Binding → Scope ℤ → List ℕ
unfolding mapped_from
mapped_luns want scope = mapped_from 0 want scope
