-- ===== src/Export/Chunker/Paired.antt =====
-- The chunker of openvtld/internal/export/tarchunk.go calls its encoder and its file where they are set.
use open_vtl.Prelude.{
  ℕ, zero, suc, ◌-◌, ◌≡◌, refl, String, Bool, true, false, Option, none, some, List, [], ◌∷◌, min,
  length, take, leb, Bool-cases, inl, inr, ◌==◌,
}
use open_vtl.Export.Chunker.{
  Host, Attempt, done, failed, Fault, error, panicked, raised, Chunker, count_write, Outcome,
  Progress, open_chunk, open_file, set_encoder, close_chunk, close_parts, after_enc_close,
  after_file_close, deliver, feed, feed_with, feed_opened, ensure_open, stage, boundary, next_chunk,
  finish_window, count_part, write_piece, write_loop, resume,
}

-- An open staging file has its encoder.
abbrev pub is_paired : {E : Type 0} → Option String → Option E → Bool
is_paired none enc = true
is_paired (some path) none = false
is_paired (some path) (some enc) = true

-- There are a staging file and its encoder.
abbrev is_open : {E : Type 0} → Option String → Option E → Bool
is_open none enc = false
is_open (some path) none = false
is_open (some path) (some enc) = true

module _ (h : Host) where
  open h use {World, Encoder}

  abbrev pub Paired : Chunker h → Type 0
  Paired c = is_paired c.f c.enc ≡ true

  abbrev Open : Chunker h → Type 0
  Open c = is_open c.f c.enc ≡ true

  -- A step that does not panic, and what holds after it unless it fails.
  abbrev pub Safely : (Chunker h → Type 0) → Outcome h → Type 0
  Safely P (some panicked, c, w) = ⊥
  Safely P (some (error e), c, w) = Unit {0}
  Safely P (none, c, w) = P c

  raised-Safely :
      (P : Chunker h → Type 0) (e : Option Fault) (c : Chunker h) (w : World)
      → P c
      → Safely P (raised e, c, w)
  raised-Safely P none c w p = p
  raised-Safely P (some e) c w p = tt

  set_encoder-Safely :
      (path : String) (c : Chunker h) (r : Attempt Encoder × World)
      → c.f ≡ some path
      → Safely Open (set_encoder h path c r)
  unfolding set_encoder
  set_encoder-Safely path c (failed e, w) f = tt
  set_encoder-Safely path c (done enc, w) f = rw f refl

  open_file-Safely : (c : Chunker h) (r : Attempt String × World) → Safely Open (open_file h c r)
  unfolding open_file
  open_file-Safely c (failed e, w) = tt
  open_file-Safely c (done path, w) = set_encoder-Safely path _ (h.new_writer w) refl

  ensure_open-Safely :
      (f : Option String) (c : Chunker h) (w : World)
      → c.f ≡ f
      → Paired c
      → Safely Open (ensure_open h f c w)
  unfolding ensure_open open_chunk
  ensure_open-Safely none c w f p = open_file-Safely c (h.create_temp w)
  ensure_open-Safely (some path) c w f p = opened path c.enc (rw f at p)
    where
      opened :
          (path : String) (enc : Option Encoder)
          → is_paired (some path) enc ≡ true
          → is_open c.f enc ≡ true
      opened path none p = absurd cc
      opened path (some enc) p = rw f refl

  feed_with-Safely :
      (f : Option String) (enc : Option Encoder) (part : List ℕ) (c : Chunker h) (w : World)
      → c.f ≡ f
      → is_open f enc ≡ true
      → Safely Open (feed_with h enc part c w)
  unfolding feed_with count_write
  feed_with-Safely none enc part c w f o = absurd cc
  feed_with-Safely (some path) none part c w f o = absurd cc
  feed_with-Safely (some path) (some enc) part c w f o =
      raised-Safely Open (h.enc_write enc part w).2 _ _ (rw f refl)

  feed_opened-Safely :
      (part : List ℕ) (o : Outcome h) → Safely Open o → Safely Open (feed_opened h part o)
  unfolding feed_opened feed
  feed_opened-Safely part (some panicked, c, w) o = o
  feed_opened-Safely part (some (error e), c, w) o = tt
  feed_opened-Safely part (none, c, w) o = feed_with-Safely c.f c.enc part c w refl o

  -- After the first block of a round: the file and the encoder are there, if the window is not skipped.
  abbrev Staging : Chunker h → Type 0
  Staging c = Paired c × (leb c.skip_until c.idx ≡ true → Open c)

  Open-Paired :
      (f : Option String) (enc : Option Encoder) → is_open f enc ≡ true → is_paired f enc ≡ true
  Open-Paired none enc o = refl
  Open-Paired (some path) none o = o
  Open-Paired (some path) (some enc) o = refl

  Open-Staging : (o : Outcome h) → Safely Open o → Safely Staging o
  Open-Staging (some panicked, c, w) o = o
  Open-Staging (some (error e), c, w) o = tt
  Open-Staging (none, c, w) o = (Open-Paired c.f c.enc o, λ _. o)

  stage-Safely :
      (part : List ℕ) (c : Chunker h) (w : World) → Paired c → Safely Staging (stage h part c w)
  unfolding stage
  stage-Safely part c w p = elim (Bool-cases (leb c.skip_until c.idx)) [
    | inl here ↦ rw here (
        Open-Staging (feed_opened h part (ensure_open h c.f c w))
          (feed_opened-Safely part (ensure_open h c.f c w) (ensure_open-Safely c.f c w refl p)))
    | inr skipped ↦ rw skipped (p, λ here. absurd cc)
  ]

  after_file_close-Safely :
      (path : String) (c : Chunker h) (r : Option Fault × World)
      → Safely Paired (after_file_close h path c r)
  unfolding after_file_close deliver
  after_file_close-Safely path c (some e, w) = tt
  after_file_close-Safely path c (none, w) = raised-Safely Paired _ _ _ refl

  after_enc_close-Safely :
      (path : String) (c : Chunker h) (r : List ℕ × Option Fault × World)
      → Safely Paired (after_enc_close h path c r)
  unfolding after_enc_close
  after_enc_close-Safely path c (out, some e, w) = tt
  after_enc_close-Safely path c (out, none, w) =
      after_file_close-Safely path _ (h.file_close path w)

  close_parts-Safely :
      (f : Option String) (enc : Option Encoder) (c : Chunker h) (w : World)
      → is_open f enc ≡ true
      → Safely Paired (close_parts h f enc c w)
  unfolding close_parts
  close_parts-Safely none enc c w o = absurd cc
  close_parts-Safely (some path) none c w o = absurd cc
  close_parts-Safely (some path) (some enc) c w o =
      after_enc_close-Safely path c (h.enc_close enc w)

  finish_window-Safely :
      (c : Chunker h) (w : World) → Staging c → Safely Paired (finish_window h c w)
  unfolding finish_window close_chunk
  finish_window-Safely c w (p, o) = elim (Bool-cases (leb c.skip_until c.idx)) [
    | inl here ↦ rw here (close_parts-Safely c.f c.enc c w (o here))
    | inr skipped ↦ rw skipped p
  ]

  next_chunk-Safely : (o : Outcome h) → Safely Paired o → Safely Paired (next_chunk h o)
  unfolding next_chunk
  next_chunk-Safely (some panicked, c, w) o = o
  next_chunk-Safely (some (error e), c, w) o = tt
  next_chunk-Safely (none, c, w) o = o

  boundary-Safely : (c : Chunker h) (w : World) → Staging c → Safely Paired (boundary h c w)
  unfolding boundary
  boundary-Safely c w s = elim (Bool-cases (c.cur_raw == c.raw_per_chunk)) [
    | inl full ↦ rw full (next_chunk-Safely (finish_window h c w) (finish_window-Safely c w s))
    | inr more ↦ rw more s.0
  ]

  -- What the rounds of `Write` leave.
  abbrev pub SafeRun : Progress h → Type 0
  SafeRun r = Safely Paired (r.1, r.2, r.3)

  count_part-Safely :
      (p : List ℕ) (n : ℕ) (o : Outcome h) → Safely Staging o → SafeRun (count_part h p n o)
  unfolding count_part
  count_part-Safely p n (some panicked, c, w) o = o
  count_part-Safely p n (some (error e), c, w) o = tt
  count_part-Safely p n (none, c, w) o = boundary-Safely _ w o

  write_piece-Safely :
      (p : List ℕ) (c : Chunker h) (w : World) → Paired c → SafeRun (write_piece h p c w)
  unfolding write_piece
  write_piece-Safely p c w v =
      let n : ℕ = min (length p) (c.raw_per_chunk - c.cur_raw) in
      count_part-Safely p n (stage h (take n p) c w) (stage-Safely (take n p) c w v)

  abbrev pub SafeLoop : Option (Progress h) → Type 0
  SafeLoop none = Unit {0}
  SafeLoop (some r) = SafeRun r

  resume-Safely :
      (again : List ℕ → Chunker h → World → Option (Progress h))
      → ((q : List ℕ) (c : Chunker h) (w : World) → Paired c → SafeLoop (again q c w))
      → (r : Progress h) → SafeRun r
      → SafeLoop (resume h again r)
  unfolding resume
  resume-Safely again ih (p, some e, c, w) s = s
  resume-Safely again ih (p, none, c, w) s = ih p c w s

  -- The loop of `Write` does not panic.
  pub write_loop-Safely :
      (fuel : ℕ) (p : List ℕ) (c : Chunker h) (w : World)
      → Paired c
      → SafeLoop (write_loop h fuel p c w)
  unfolding write_loop
  write_loop-Safely fuel [] c w v = v
  write_loop-Safely zero (x ∷ p) c w v = tt
  write_loop-Safely (suc fuel) (x ∷ p) c w v =
      resume-Safely (write_loop h fuel) (write_loop-Safely fuel) (write_piece h (x ∷ p) c w)
        (write_piece-Safely (x ∷ p) c w v)
