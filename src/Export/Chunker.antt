-- ===== src/Export/Chunker.antt =====
-- openvtld/internal/export/tarchunk.go: the chunker that cuts the tar stream into windows of
-- `raw_per_chunk` bytes, each compressed into a staging file of its own and handed to the sink.
pub mod Counting
pub mod Paired
pub mod Codec
pub mod Content
pub mod Windows
pub mod Stream
pub mod Restore
use open_vtl.Prelude.{
  ℕ, zero, suc, ◌+◌, ◌-◌, String, Option, none, some, List, [], ◌∷◌, ◌++◌, min, length, take, drop,
  leb, ltb, ◌==◌, if◌then◌else◌, ◌&&◌,
}

-- An `error` of the file system, of the encoder, of the sink or of the context.
pub data Fault : Type 0 where
  canceled : Fault
  host_error : ℕ → Fault

-- What ends a step: an error, which the method returns, or the panic of a call through a nil encoder or a nil file,
-- which no method of the chunker recovers from.
pub data Halt : Type 0 where
  error : Fault → Halt
  panicked : Halt

-- What a call that may return an error ends.
abbrev pub raised : Option Fault → Option Halt
raised none = none
raised (some e) = some (error e)

-- A Go call that returns a value or an error.
pub data Attempt (A : Type 0) : Type 0 where
  done : A → Attempt A
  failed : Fault → Attempt A

pub record ChunkResult : Type 0 where
  pub idx : ℕ
  pub stage_path : String
  pub raw_bytes : ℕ
  pub stored_bytes : ℕ
  pub sha256 : String

-- What the chunker calls and does not implement: the context, the file system, the zstd encoder, the
-- hash and the sink. Each call may fail and may change the world.
pub record Host : Type 1 where
  pub World : Type 0
  pub Encoder : Type 0
  -- c.ctx.Err()
  pub ctx_err : World → Option Fault
  -- os.CreateTemp: the path of the new file, or the error
  pub create_temp : World → Attempt String × World
  -- zstd.NewWriter
  pub new_writer : World → Attempt Encoder × World
  -- enc.Write: the encoder after it, the compressed bytes that it passed on, its error
  pub enc_write : Encoder → List ℕ → World → Encoder × List ℕ × Option Fault × World
  -- enc.Close: the compressed bytes that it flushed, its error
  pub enc_close : Encoder → World → List ℕ × Option Fault × World
  pub file_close : String → World → Option Fault × World
  pub remove : String → World → World
  pub hash : List ℕ → String
  -- the sink reads the staging file: its content is the second argument
  pub sink : ChunkResult → List ℕ → World → Option Fault × World

module _ (h : Host) where
  open h use {
    World, Encoder, ctx_err, create_temp, new_writer, enc_write, enc_close, file_close, remove,
    hash, sink,
  }

  -- `sum` holds the bytes that went through the MultiWriter, to the file and to the hash.
  pub record Chunker : Type 0 where
    pub raw_per_chunk : ℕ
    pub skip_until : ℕ
    pub idx : ℕ
    pub cur_raw : ℕ
    pub raw_seen : ℕ
    pub f : Option String
    pub enc : Option Encoder
    pub sum : List ℕ
    pub stored : ℕ

  -- The outcome of an internal step: what ended it, if anything did, and the state after it.
  abbrev pub Outcome : Type 0
  Outcome = Option Halt × Chunker × World

  unfoldable pub new_chunker : ℕ → ℕ → Chunker
  new_chunker raw_per_chunk skip_until = record {
    raw_per_chunk = raw_per_chunk;
    skip_until = skip_until;
    idx = 0;
    cur_raw = 0;
    raw_seen = 0;
    f = none;
    enc = none;
    sum = [];
    stored = 0;
  }

  -- `countWriter` adds what the file took to `stored`.
  count_write : List ℕ → Chunker → Chunker
  count_write out c = record c { sum = c.sum ++ out; stored = c.stored + length out }

  -- NewWriter failed: the file is closed and removed, and `c.f` still names it.
  set_encoder : String → Chunker → Attempt Encoder × World → Outcome
  set_encoder path c (failed e, w) = (some (error e), c, remove path (file_close path w).1)
  set_encoder path c (done enc, w) = (none, record c { enc = some enc }, w)

  open_file : Chunker → Attempt String × World → Outcome
  open_file c (failed e, w) = (some (error e), c, w)
  open_file c (done path, w) =
      set_encoder path (record c { f = some path; sum = []; stored = 0 }) (new_writer w)

  unfoldable pub open_chunk : Chunker → World → Outcome
  unfolding open_file set_encoder
  open_chunk c w = open_file c (create_temp w)

  -- sink(res), then os.Remove(path) whatever the sink said.
  deliver : String → Chunker → World → Outcome
  deliver path c w =
      let res : ChunkResult = record {
        idx = c.idx;
        stage_path = path;
        raw_bytes = c.cur_raw;
        stored_bytes = c.stored;
        sha256 = hash c.sum;
      } in
      let (e, w') = sink res c.sum w in (raised e, c, remove path w')

  after_file_close : String → Chunker → Option Fault × World → Outcome
  after_file_close path c (some e, w) = (some (error e), c, w)
  after_file_close path c (none, w) = deliver path (record c { f = none; enc = none }) w

  after_enc_close : String → Chunker → List ℕ × Option Fault × World → Outcome
  after_enc_close path c (out, some e, w) = (some (error e), count_write out c, w)
  after_enc_close path c (out, none, w) =
      after_file_close path (count_write out c) (file_close path w)

  -- closeChunk, on the file and the encoder of the chunk; without them it panics.
  close_parts : Option String → Option Encoder → Chunker → World → Outcome
  close_parts (some path) (some enc) c w = after_enc_close path c (enc_close enc w)
  close_parts (some path) none c w = (some panicked, c, w)
  close_parts none enc c w = (some panicked, c, w)

  unfoldable pub close_chunk : Chunker → World → Outcome
  unfolding close_parts after_enc_close after_file_close deliver count_write
  close_chunk c w = close_parts c.f c.enc c w

  -- Without an encoder it panics.
  feed_with : Option Encoder → List ℕ → Chunker → World → Outcome
  feed_with none part c w = (some panicked, c, w)
  feed_with (some enc) part c w =
      let (enc', out, e, w') = enc_write enc part w in
      (raised e, record (count_write out c) { enc = some enc' }, w')

  -- c.enc.Write(part)
  feed : List ℕ → Chunker → World → Outcome
  unfolding feed_with count_write
  feed part c w = feed_with c.enc part c w

  feed_opened : List ℕ → Outcome → Outcome
  feed_opened part (some e, c, w) = (some e, c, w)
  feed_opened part (none, c, w) = feed part c w

  ensure_open : Option String → Chunker → World → Outcome
  ensure_open none c w = open_chunk c w
  ensure_open (some path) c w = (none, c, w)

  -- The first block of the loop: the part is compressed, unless its chunk is skipped.
  unfoldable pub stage : List ℕ → Chunker → World → Outcome
  unfolding feed_opened ensure_open feed
  stage part c w =
      if leb c.skip_until c.idx then feed_opened part (ensure_open c.f c w) else (none, c, w)

  next_chunk : Outcome → Outcome
  next_chunk (some e, c, w) = (some e, c, w)
  next_chunk (none, c, w) = (none, record c { idx = c.idx + 1; cur_raw = 0 }, w)

  unfoldable pub finish_window : Chunker → World → Outcome
  finish_window c w = if leb c.skip_until c.idx then close_chunk c w else (none, c, w)

  -- The last block of the loop: a full window is closed, unless it is skipped, and the next begins.
  unfoldable pub boundary : Chunker → World → Outcome
  unfolding next_chunk
  boundary c w =
      if c.cur_raw == c.raw_per_chunk then next_chunk (finish_window c w) else (none, c, w)

  -- What the loop has not consumed, what stopped it, and the state.
  abbrev pub Progress : Type 0
  Progress = List ℕ × Option Halt × Chunker × World

  count_part : List ℕ → ℕ → Outcome → Progress
  count_part p n (some e, c, w) = (p, some e, c, w)
  count_part p n (none, c, w) =
      let (e, c', w') =
        boundary (record c { cur_raw = c.cur_raw + n; raw_seen = c.raw_seen + n }) w in
      (drop n p, e, c', w')

  -- One round of the loop of `Write`.
  unfoldable pub write_piece : List ℕ → Chunker → World → Progress
  unfolding count_part
  write_piece p c w =
      let n = min (length p) (c.raw_per_chunk - c.cur_raw) in count_part p n (stage (take n p) c w)

  resume : (List ℕ → Chunker → World → Option Progress) → Progress → Option Progress
  resume again (p, some e, c, w) = some (p, some e, c, w)
  resume again (p, none, c, w) = again p c w

  -- `for len(p) > 0`, on fuel.
  unfoldable pub write_loop : ℕ → List ℕ → Chunker → World → Option Progress
  unfolding resume
  write_loop fuel [] c w = some ([], none, c, w)
  write_loop zero (x ∷ p) c w = none
  write_loop (suc fuel) (x ∷ p) c w =
      resume (λ q c' w'. write_loop fuel q c' w') (write_piece (x ∷ p) c w)

  -- What `Write` returns, its count and its error, and the state after it.
  abbrev pub Written : Type 0
  Written = ℕ × Option Fault × Chunker × World

  -- After a panic nothing is returned.
  count_written : ℕ → Option Progress → Option Written
  count_written total none = none
  count_written total (some (p, some panicked, c, w)) = none
  count_written total (some (p, some (error e), c, w)) = some (total - length p, some e, c, w)
  count_written total (some (p, none, c, w)) = some (total - length p, none, c, w)

  write_unless : Option Fault → List ℕ → Chunker → World → Option Written
  write_unless (some e) p c w = some (0, some e, c, w)
  write_unless none p c w = count_written (length p) (write_loop (length p + 1) p c w)

  -- A round consumes a byte, but for a first one at a window that a failed close left full; so one
  -- round more than there are bytes is enough fuel.
  unfoldable pub write : List ℕ → Chunker → World → Option Written
  unfolding write_unless count_written
  write p c w = write_unless (ctx_err w) p c w

  close_enc : Option Encoder → World → World
  close_enc none w = w
  close_enc (some enc) w = (enc_close enc w).2

  drop_file : Option String → World → World
  drop_file none w = w
  drop_file (some path) w = remove path (file_close path w).1

  -- Without an encoder `c.enc.Close()` panics.
  drop_leftover : Option String → Option Encoder → Chunker → World → Outcome
  drop_leftover none enc c w = (none, c, w)
  drop_leftover (some path) none c w = (some panicked, c, w)
  drop_leftover (some path) (some enc) c w =
      (none, c, drop_file (some path) (close_enc (some enc) w))

  close_tail : Option String → Chunker → World → Outcome
  close_tail none c w = (none, c, w)
  close_tail (some path) c w = close_chunk c w

  -- Close flushes the final partial chunk.
  unfoldable pub close : Chunker → World → Outcome
  unfolding drop_leftover close_tail drop_file close_enc
  close c w =
      if ltb 0 c.cur_raw && leb c.skip_until c.idx
      then close_tail c.f c w
      else drop_leftover c.f c.enc c w

  -- abort releases resources after an error without invoking the sink.
  pub abort : Chunker → World → World
  unfolding drop_file close_enc
  abort c w = drop_file c.f (close_enc c.enc w)

  -- The stream as `Write` receives it, part after part, until one fails.
  write_all_from : (Chunker → World → Option Outcome) → Option Written → Option Outcome
  write_all_from again none = none
  write_all_from again (some (n, some e, c, w)) = some (some (error e), c, w)
  write_all_from again (some (n, none, c, w)) = again c w

  unfoldable pub write_all : List (List ℕ) → Chunker → World → Option Outcome
  unfolding write_all_from
  write_all [] c w = some (none, c, w)
  write_all (p ∷ ps) c w = write_all_from (λ c' w'. write_all ps c' w') (write p c w)

  -- openvtld/internal/export/export.go, runExport: the chunks that the pipeline produced.
  unfoldable pub chunks_total : Chunker → ℕ
  chunks_total c = if ltb 0 c.cur_raw then c.idx + 1 else c.idx
