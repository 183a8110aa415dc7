-- ===== src/Tests/Export.antt =====
-- Runs of the chunker at concrete inputs (openvtld/internal/export/tarchunk.go).
use mathlib.Core.List.{flatten}
use mathlib.Core.Option
use open_vtl.Prelude.{
  ℕ, ◌+◌, ◌-◌, ◌/◌, ◌≡◌, refl, String, Bool, true, false, if◌then◌else◌, Option, none, some, List,
  [], ◌∷◌, arith, length,
}
use open_vtl.Export.Chunker.{
  done, failed, Host, Chunker, Fault, host_error, Written, write, new_chunker, write_all, close,
  chunks_total, write_loop, write_piece, stage, open_chunk, boundary, finish_window, close_chunk,
}
use open_vtl.Export.Chunker.Codec.{Delivery, identity_codec, reliable}
use open_vtl.Export.Chunker.Counting.{IsValid, Returns, write_lem}
use open_vtl.Export.Chunker.Paired.{Paired}
use open_vtl.Export.Chunker.Content.{H}
use open_vtl.Export.Chunker.Restore.{Closes, stream_restored}

abbrev no_hash : List ℕ → String
no_hash bytes = "00"

-- A host whose sink refuses every chunk.
abbrev refusing : Host
refusing = record (reliable identity_codec no_hash) {
  sink = λ r content w. (some (host_error 5), w);
}

abbrev five : List ℕ
five = 1 ∷ 2 ∷ 3 ∷ 4 ∷ 5 ∷ []

abbrev two_parts : List (List ℕ)
two_parts = five ∷ (6 ∷ 7 ∷ []) ∷ []

new_chunker-IsValid : IsValid refusing (new_chunker refusing 2 0)
unfolding new_chunker
new_chunker-IsValid = omega arith

new_chunker-Paired : Paired refusing (new_chunker refusing 2 0)
unfolding new_chunker
new_chunker-Paired = refl

write_lem_example :
    (r : Written refusing) × (write refusing five (new_chunker refusing 2 0) [] ≡ some r)
    × Returns refusing five (new_chunker refusing 2 0) r
write_lem_example =
    write_lem refusing five (new_chunker refusing 2 0) [] new_chunker-IsValid new_chunker-Paired

-- The first window was counted before the sink refused it.
refused :
    Option.map {B = ℕ × Option Fault}
      (λ r. (r.0, r.1))
      (write refusing five (new_chunker refusing 2 0) [])
    ≡ some (2, some (host_error 5))
unfolding write write_loop write_piece stage open_chunk boundary finish_window close_chunk
    new_chunker
refused = refl

stream_restored_example :
    let host = H identity_codec no_hash in
    (c : Chunker host) × (w : List Delivery) × (write_all host two_parts (new_chunker host 3 1) []
      ≡ some (none, c, w))
    × Closes identity_codec no_hash 3 1 (flatten two_parts) c (close host c w)
    × (chunks_total host c ≡ (length (flatten two_parts) + (3 - 1)) / 3)
stream_restored_example = stream_restored identity_codec no_hash 3 1 two_parts (omega arith)

-- A host on which zstd.NewWriter fails once, and then never.
abbrev no_writer : Host
no_writer = record (reliable identity_codec no_hash) {
  World = Bool;
  ctx_err = λ w. none;
  create_temp = λ w. (done "chunk.tar.zst.tmp", w);
  new_writer = λ w. if w then (failed (host_error 12), false) else (done tt, w);
  enc_write = λ e part w. (e, part, none, w);
  enc_close = λ e w. ([], none, w);
  file_close = λ path w. (none, w);
  remove = λ path w. w;
  sink = λ r content w. (none, w);
}

-- The failed NewWriter leaves a file without an encoder, on which the next `Write` panics.
unpaired :
    Option.map {B = ℕ × Option Fault}
      (λ r. (r.0, r.1))
      (write no_writer five (new_chunker no_writer 9 0) true)
    ≡ some (0, some (host_error 12))
unfolding write write_loop write_piece stage open_chunk new_chunker
unpaired = refl

panics :
    write_all no_writer ((1 ∷ []) ∷ []) (record (new_chunker no_writer 9 0) { f = some "t" }) false
    ≡ none
unfolding write_all write write_loop write_piece stage open_chunk new_chunker
panics = refl
