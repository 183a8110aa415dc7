-- ===== src/Export/Resume.antt =====
-- openvtld/internal/export/export.go, runExport: where an interrupted export goes on.
pub mod Ledger
pub mod Recorded
use open_vtl.Prelude.{
  ℕ, ◌+◌, Bool, true, false, not, ◌&&◌, Option, none, some, List, [], ◌∷◌, ltb, ◌==◌, if◌then◌else◌,
}
use open_vtl.Store.{ExportChunk}

-- c.UploadedAt != ""
abbrev pub is_uploaded : ExportChunk → Bool
is_uploaded c = has_time c.uploaded_at
  where
    has_time : Option ℕ → Bool
    has_time none = false
    has_time (some t) = true

-- The loop over the ledger, with the value of `skipUntil` so far.
unfoldable pub skip_from : ℕ → List ExportChunk → ℕ
skip_from skip_until [] = skip_until
skip_from skip_until (c ∷ cs) =
    let rest = skip_from (skip_until + 1) cs in
    if c.idx == skip_until && is_uploaded c then rest else skip_until

-- A cart whose size is not the last attempt's starts over.
unfoldable pub resume_point : ℕ → ℕ → List ExportChunk → ℕ
unfolding skip_from
resume_point bytes_total sum_bytes ledger =
    let skip_until = skip_from 0 ledger in
    if ltb 0 skip_until && not (bytes_total == sum_bytes) then 0 else skip_until
