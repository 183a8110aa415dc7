-- ===== src/Inventory/Removal/Blocks.antt =====
-- What RemoveLibrary of openvtld/internal/inventory/libremove.go leaves of device.conf, block by block.
use open_vtl.Prelude.Text.{bytes_eq, decimal}
use open_vtl.Prelude.Words.{split_on, join_with}
use open_vtl.Prelude.{
  ℕ, ◌≡◌, refl, sym, ap, ◌∙◌, Bool, true, false, ◌||◌, List, [], ◌∷◌, ◌++◌, append-nil,
  append_assoc, if◌then◌else◌,
}
use open_vtl.Inventory.Removal.{
  LineKind, library_line, drive_line, other_line, owner_of, kind_of, is_text, flush, on_line,
  scan_lines, without_library,
}

-- A line that starts a library or a drive, and the lines up to the next.
pub record Block : Type 0 where
  pub head : List ℕ
  pub body : List (List ℕ)

abbrev pub added_to : List ℕ → LineKind → List (List ℕ) × List Block → List (List ℕ) × List Block
added_to l other_line (body, blocks) = (l ∷ body, blocks)
added_to l (library_line n) (body, blocks) = ([], record { head = l; body = body } ∷ blocks)
added_to l drive_line (body, blocks) = ([], record { head = l; body = body } ∷ blocks)

-- The lines before the first block, and the blocks.
unfoldable pub blocks_of : List (List ℕ) → List (List ℕ) × List Block
blocks_of [] = ([], [])
blocks_of (l ∷ ls) = added_to l (kind_of l) (blocks_of ls)

abbrev pub heads_library : List ℕ → LineKind → Bool
heads_library id (library_line n) = bytes_eq n id
heads_library id drive_line = false
heads_library id other_line = false

-- A line says that the block is of the library.
abbrev pub names_library : List ℕ → List (List ℕ) → Bool
names_library id [] = false
names_library id (l ∷ ls) = is_text id (owner_of l) || names_library id ls

-- The lines of the blocks that are not the library's and not of its drives.
abbrev pub kept_lines : List ℕ → List Block → List (List ℕ)
kept_lines id [] = []
kept_lines id (b ∷ bs) =
    (if heads_library id (kind_of b.head) || names_library id b.body then [] else b.head ∷ b.body)
    ++ kept_lines id bs

or_false : (b : Bool) → b || false ≡ b
or_false true = refl
or_false false = refl

or_assoc : (a b c : Bool) → (a || b) || c ≡ a || (b || c)
or_assoc true b c = refl
or_assoc false b c = refl

ended :
    (dropped : Bool) (block : List (List ℕ))
    → flush (dropped || false) (block ++ []) ≡ flush dropped block
ended dropped block =
    ap (λ d. flush d (block ++ [])) (or_false dropped) ∙ ap (flush dropped) (append-nil block)

begun_block :
    (id : List ℕ) (dropped d : Bool) (block : List (List ℕ)) (l : List ℕ) (ls : List (List ℕ))
    → heads_library id (kind_of l) ≡ d
    → scan_lines id true d (l ∷ []) ls
      ≡ flush (d || names_library id (blocks_of ls).0) (l ∷ (blocks_of ls).0)
        ++ kept_lines id (blocks_of ls).1
    → flush dropped block ++ scan_lines id true d (l ∷ []) ls
      ≡ flush (dropped || false) (block ++ [])
        ++ kept_lines id (record { head = l; body = (blocks_of ls).0 } ∷ (blocks_of ls).1)
begun_block id dropped d block l ls e h =
    rw (ended dropped block) (rw e (ap (λ t. flush dropped block ++ t) h))

-- From within a block: it is flushed at its end, and then come the blocks that are kept.
within_block :
    (id : List ℕ) (dropped : Bool) (block ls : List (List ℕ))
    → scan_lines id true dropped block ls
      ≡ flush (dropped || names_library id (blocks_of ls).0) (block ++ (blocks_of ls).0)
        ++ kept_lines id (blocks_of ls).1
unfolding scan_lines blocks_of
within_block id dropped block [] = sym (ended dropped block) ∙ sym (append-nil _)
within_block id dropped block (l ∷ ls) = go (λ d b. within_block id d b ls) (kind_of l) refl
  where
    go :
        ((d : Bool) (b : List (List ℕ))
          → scan_lines id true d b ls
            ≡ flush (d || names_library id (blocks_of ls).0) (b ++ (blocks_of ls).0)
              ++ kept_lines id (blocks_of ls).1)
        → (k : LineKind) → kind_of l ≡ k
        → on_line id k true
            (λ d. flush dropped block ++ scan_lines id true d (l ∷ []) ls)
            (scan_lines id true (dropped || is_text id (owner_of l)) (block ++ l ∷ []) ls)
            (l ∷ scan_lines id true dropped block ls)
          ≡ flush
              (dropped || names_library id (added_to l k (blocks_of ls)).0)
              (block ++ (added_to l k (blocks_of ls)).0)
            ++ kept_lines id (added_to l k (blocks_of ls)).1
    go again (library_line n) e =
        begun_block id dropped (bytes_eq n id) block l ls (ap (heads_library id) e)
          (again (bytes_eq n id) (l ∷ []))
    go again drive_line e =
        begun_block id dropped false block l ls (ap (heads_library id) e) (again false (l ∷ []))
    go again other_line e =
        again (dropped || is_text id (owner_of l)) (block ++ l ∷ [])
        ∙ ap
            (λ d. flush d ((block ++ l ∷ []) ++ (blocks_of ls).0) ++ kept_lines id (blocks_of ls).1)
            (or_assoc dropped (is_text id (owner_of l)) (names_library id (blocks_of ls).0))
        ∙ ap
            (λ b.
              flush (dropped || (is_text id (owner_of l) || names_library id (blocks_of ls).0)) b
              ++ kept_lines id (blocks_of ls).1)
            (append_assoc block (l ∷ []) (blocks_of ls).0)

scan_lines_lem :
    (id : List ℕ) (ls : List (List ℕ))
    → scan_lines id false false [] ls ≡ (blocks_of ls).0 ++ kept_lines id (blocks_of ls).1
unfolding scan_lines blocks_of
scan_lines_lem id [] = refl
scan_lines_lem id (l ∷ ls) = go (scan_lines_lem id ls) (kind_of l) refl
  where
    go :
        (scan_lines id false false [] ls ≡ (blocks_of ls).0 ++ kept_lines id (blocks_of ls).1)
        → (k : LineKind) → kind_of l ≡ k
        → on_line id k false
            (λ d. scan_lines id true d (l ∷ []) ls)
            (scan_lines id false (is_text id (owner_of l)) (l ∷ []) ls)
            (l ∷ scan_lines id false false [] ls)
          ≡ (added_to l k (blocks_of ls)).0 ++ kept_lines id (added_to l k (blocks_of ls)).1
    go later (library_line n) e =
        rw (ap (heads_library id) e) (within_block id (bytes_eq n id) (l ∷ []) ls)
    go later drive_line e = rw (ap (heads_library id) e) (within_block id false (l ∷ []) ls)
    go later other_line e = ap (λ t. l ∷ t) later

-- Removing a library from the text of device.conf leaves the lines before the first block, and of the blocks of
-- libraries and drives those, unchanged and in their order, whose head is not the library with this id and
-- in which no line says that the block belongs to it.
pub without_library_lem :
    (id : ℕ) (text : List ℕ)
    → let conf = blocks_of (split_on b'\n' text) in
      without_library id text ≡ join_with b'\n' (conf.0 ++ kept_lines (decimal id) conf.1)
unfolding without_library
without_library_lem id text =
    ap (join_with b'\n') (scan_lines_lem (decimal id) (split_on b'\n' text))
