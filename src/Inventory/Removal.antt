-- ===== src/Inventory/Removal.antt =====
-- openvtld/internal/inventory/libremove.go: the blocks of a library are taken out of device.conf.
pub mod Blocks
use open_vtl.Prelude.Text.{ascii, bytes_eq, decimal, starts_with}
use open_vtl.Prelude.Words.{split_on, join_with}
use open_vtl.Prelude.{
  ℕ, Bool, true, false, ◌&&◌, ◌||◌, Option, none, some, List, [], ◌∷◌, ◌++◌, leb, ◌==◌,
  if◌then◌else◌, length, drop,
}
use open_vtl.Exec.{Result, ok, err}
use open_vtl.Inventory.{MhvtlDrive, MhvtlLibrary}

-- \s
abbrev pub is_blank : ℕ → Bool
is_blank c = c == 32 || (leb 9 c && leb c 10) || (leb 12 c && leb c 13)

abbrev pub is_digit : ℕ → Bool
is_digit c = leb b'0' c && leb c b'9'

-- What follows the bytes of a class at the start.
skip_class : (ℕ → Bool) → List ℕ → List ℕ
skip_class test [] = []
skip_class test (c ∷ cs) = let rest = skip_class test cs in if test c then rest else c ∷ cs

take_class : (ℕ → Bool) → List ℕ → List ℕ
take_class test [] = []
take_class test (c ∷ cs) = let rest = take_class test cs in if test c then c ∷ rest else []

-- Whether the first byte is of the class.
abbrev pub begins : (ℕ → Bool) → List ℕ → Bool
begins test [] = false
begins test (c ∷ cs) = test c

-- (\d+)\s
numbered : List ℕ → Option (List ℕ)
unfolding skip_class take_class
numbered s =
    if begins is_digit s && begins is_blank (skip_class is_digit s)
    then some (take_class is_digit s)
    else none

-- ^<name>:\s+(\d+)\s
heads : List ℕ → List ℕ → Option (List ℕ)
unfolding starts_with skip_class numbered
heads name line =
    let rest = drop (length name) line in
    if starts_with name line && begins is_blank rest
    then numbered (skip_class is_blank rest)
    else none

-- ^(\d+)\s+Slot:\s+(\d+), after the colon of the field and its blanks.
owner_in : List ℕ → Option (List ℕ)
unfolding starts_with skip_class take_class
owner_in s =
    let rest = skip_class is_digit s in
    let slot = skip_class is_blank rest in
    let at = drop 5 slot in
    if begins is_digit s
      && begins is_blank rest
      && starts_with (ascii "Slot:") slot
      && begins is_blank at
      && begins is_digit (skip_class is_blank at)
    then some (take_class is_digit s)
    else none

-- The field "Library ID" of a line: the id, unless the line is another.
unfoldable pub owner_of : List ℕ → Option (List ℕ)
unfolding starts_with skip_class owner_in
owner_of line =
    let key = skip_class is_blank line in
    let colon = skip_class (λ c. c == 32) (drop 10 key) in
    let value = drop 1 colon in
    if begins is_blank line
      && starts_with (ascii "Library ID") key
      && begins (λ c. c == b':') colon
      && begins is_blank value
    then owner_in (skip_class is_blank value)
    else none

pub data LineKind : Type 0 where
  library_line : List ℕ → LineKind
  drive_line other_line : LineKind

abbrev pub kind_by : Option (List ℕ) → Option (List ℕ) → LineKind
kind_by (some id) d = library_line id
kind_by none (some q) = drive_line
kind_by none none = other_line

unfoldable pub kind_of : List ℕ → LineKind
unfolding heads
kind_of line = kind_by (heads (ascii "Library:") line) (heads (ascii "Drive:") line)

abbrev pub is_text : List ℕ → Option (List ℕ) → Bool
is_text id none = false
is_text id (some s) = bytes_eq s id

-- What a block leaves when it ends.
abbrev pub flush : Bool → List (List ℕ) → List (List ℕ)
flush dropped block = if dropped then [] else block

-- One line, given what the loop does from a new block, within the block, and outside of any.
abbrev pub on_line :
    List ℕ
    → LineKind
    → Bool
    → (Bool → List (List ℕ))
    → List (List ℕ)
    → List (List ℕ)
    → List (List ℕ)
on_line id (library_line n) in_block begun within outside = begun (bytes_eq n id)
on_line id drive_line in_block begun within outside = begun false
on_line id other_line true begun within outside = within
on_line id other_line false begun within outside = outside

-- The loop: whether it is in a block, whether the block is dropped, and its lines so far.
unfoldable pub scan_lines : List ℕ → Bool → Bool → List (List ℕ) → List (List ℕ) → List (List ℕ)
unfolding kind_of owner_of
scan_lines id in_block dropped block [] = flush dropped block
scan_lines id in_block dropped block (l ∷ ls) =
    on_line id (kind_of l) in_block (λ d. flush dropped block ++ scan_lines id true d (l ∷ []) ls)
      (scan_lines id in_block (dropped || is_text id (owner_of l)) (block ++ l ∷ []) ls)
      (l ∷ scan_lines id in_block dropped block ls)

-- The new text of device.conf.
unfoldable pub without_library : ℕ → List ℕ → List ℕ
unfolding scan_lines decimal split_on join_with
without_library id text =
    join_with b'\n' (scan_lines (decimal id) false false [] (split_on b'\n' text))

pub data RemoveFault : Type 0 where
  conf_unreadable not_declared : RemoveFault

queue_ids : List MhvtlDrive → List ℕ
queue_ids [] = []
queue_ids (d ∷ ds) = d.queue_id ∷ queue_ids ds

-- The queues of the drives whose drop-ins go too.
unfoldable pub queues_of : ℕ → List MhvtlLibrary → List ℕ
unfolding queue_ids
queues_of id [] = []
queues_of id (l ∷ ls) =
    let rest = queues_of id ls in if l.id == id then queue_ids l.drives ++ rest else rest

unfoldable pub is_declared : ℕ → List MhvtlLibrary → Bool
is_declared id [] = false
is_declared id (l ∷ ls) = l.id == id || is_declared id ls

-- The text that is written and the queues, given what is read.
unfoldable pub remove_library :
    ℕ → Option (List MhvtlLibrary) → Option (List ℕ) → Result RemoveFault (List ℕ × List ℕ)
unfolding without_library queues_of is_declared
remove_library id none text = err conf_unreadable
remove_library id (some libs) none =
    if is_declared id libs then err conf_unreadable else err not_declared
remove_library id (some libs) (some text) =
    if is_declared id libs
    then ok (without_library id text, queues_of id libs)
    else err not_declared
