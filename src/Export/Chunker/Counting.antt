-- ===== src/Export/Chunker/Counting.antt =====
-- The counters of the chunker (openvtld/internal/export/tarchunk.go) and the count that `Write` returns.
use open_vtl.Prelude.{
  ℕ, zero, suc, ◌+◌, ◌-◌, ◌*◌, ◌≤◌, ◌<◌, ◌≡◌, refl, Option, none, some, List, [], ◌∷◌, arith, min,
  length, take, length-drop, Bool-cases, Option-cases, ◌==◌, inl, inr,
}
use open_vtl.Export.Chunker.Paired.{Paired, SafeLoop, write_loop-Safely}
use open_vtl.Export.Chunker.{
  error, panicked, Host, Chunker, Outcome, Progress, Written, open_chunk, close_chunk, stage,
  boundary, next_chunk, finish_window, write_piece, write_loop, write, count_part, count_written,
  resume,
}

module _ (h : Host) where
  open h use {World}

  -- The counters agree with the bytes seen: `idx` whole windows and `cur_raw` bytes of the next.
  pub record IsValid (c : Chunker h) : Type 0 where
    pub positive : 0 < c.raw_per_chunk
    pub within : c.cur_raw ≤ c.raw_per_chunk
    pub counted : c.idx * c.raw_per_chunk + c.cur_raw ≡ c.raw_seen

  -- The steps on the staging file leave the counters alone.
  pub record SameCounts (c c' : Chunker h) : Type 0 where
    pub same_size : c'.raw_per_chunk ≡ c.raw_per_chunk
    pub same_skip : c'.skip_until ≡ c.skip_until
    pub same_idx : c'.idx ≡ c.idx
    pub same_raw : c'.cur_raw ≡ c.cur_raw
    pub same_seen : c'.raw_seen ≡ c.raw_seen

  pub open_chunk-SameCounts : (c : Chunker h) (w : World) → SameCounts c (open_chunk h c w).1
  unfolding open_chunk
  open_chunk-SameCounts c w = ground arith

  pub stage-SameCounts :
      (part : List ℕ) (c : Chunker h) (w : World) → SameCounts c (stage h part c w).1
  unfolding stage
  stage-SameCounts part c w = ground (arith, open_chunk-SameCounts c w)

  pub close_chunk-SameCounts : (c : Chunker h) (w : World) → SameCounts c (close_chunk h c w).1
  unfolding close_chunk
  close_chunk-SameCounts c w = ground arith

  IsValid-of_SameCounts : {c c' : Chunker h} → SameCounts c c' → IsValid c → IsValid c'
  IsValid-of_SameCounts {c} {c'} s v = record {
    positive = omega arith;
    within = omega arith;
    counted = omega (arith, cc_product);
  }
    where
      cc_product : c'.idx * c'.raw_per_chunk ≡ c.idx * c.raw_per_chunk
      cc_product = cc (s.same_idx, s.same_size)

  next_window :
      {c : Chunker h}
      → IsValid c
      → c.cur_raw ≡ c.raw_per_chunk
      → IsValid (record c { idx = c.idx + 1; cur_raw = 0 })
  next_window v full = record {
    positive = v.positive;
    within = omega arith;
    counted = omega (arith, v.counted);
  }

  next_chunk-IsValid :
      (o : Outcome h) → IsValid o.1 → o.1.cur_raw ≡ o.1.raw_per_chunk → IsValid (next_chunk h o).1
  unfolding next_chunk
  next_chunk-IsValid (some e, c, w) v full = v
  next_chunk-IsValid (none, c, w) v full = next_window v full

  finish_window-SameCounts : (c : Chunker h) (w : World) → SameCounts c (finish_window h c w).1
  unfolding finish_window
  finish_window-SameCounts c w = ground (arith, close_chunk-SameCounts c w)

  pub boundary-IsValid : (c : Chunker h) (w : World) → IsValid c → IsValid (boundary h c w).1
  unfolding boundary
  boundary-IsValid c w v = elim (Bool-cases (c.cur_raw == c.raw_per_chunk)) [
    | inl full ↦
        let same = finish_window-SameCounts c w in
        rw full
          (next_chunk-IsValid (finish_window h c w) (IsValid-of_SameCounts same v) (ground arith))
    | inr more ↦ rw more v
  ]

  -- The window closed or not, no byte is counted twice; without an error there is room again.
  pub boundary_room :
      (c : Chunker h) (w : World)
      → IsValid c
      → ((boundary h c w).1.raw_seen ≡ c.raw_seen)
        × ((boundary h c w).0 ≡ none
            → (boundary h c w).1.cur_raw < (boundary h c w).1.raw_per_chunk)
  unfolding boundary
  boundary_room c w v = ground (arith, finish_window-SameCounts c w)

  -- What one round has done to the unconsumed bytes `p`: the counters are valid, each byte taken off
  -- `p` is counted, and a round without an error leaves room in the window.
  pub record RoundIsValid (p : List ℕ) (c : Chunker h) (r : Progress h) : Type 0 where
    pub valid : IsValid r.2
    pub consumed : length r.0 + r.2.raw_seen ≡ length p + c.raw_seen
    pub shorter : length r.0 ≤ length p
    pub room : r.1 ≡ none → r.2.cur_raw < r.2.raw_per_chunk
    pub progress : c.cur_raw < c.raw_per_chunk → 0 < length p → r.1 ≡ none → length r.0 < length p

  count_part-IsValid :
      (p : List ℕ) (n : ℕ) (c : Chunker h) (o : Outcome h)
      → IsValid c
      → SameCounts c o.1
      → n ≤ length p
      → c.cur_raw + n ≤ c.raw_per_chunk
      → (c.cur_raw < c.raw_per_chunk → 0 < length p → 0 < n)
      → RoundIsValid p c (count_part h p n o)
  unfolding count_part
  count_part-IsValid p n c (some e, c', w) v same le fits some_byte = record {
    valid = IsValid-of_SameCounts same v;
    consumed = omega arith;
    shorter = omega arith;
    room = λ ok. cc;
    progress = λ r l ok. cc;
  }
  count_part-IsValid p n c (none, c', w) v same le fits some_byte =
      let v' = IsValid-of_SameCounts same v in
      let c'' = record c' { cur_raw = c'.cur_raw + n; raw_seen = c'.raw_seen + n } in
      let ready : IsValid c'' = record {
        positive = v'.positive;
        within = omega arith;
        counted = omega (arith, v'.counted);
      } in
      let (seen, room) = boundary_room c'' w ready in
      record {
        valid = boundary-IsValid c'' w ready;
        consumed = omega (arith, length-drop n p);
        shorter = omega (arith, length-drop n p);
        room = room;
        progress = λ r l ok. omega (arith, length-drop n p, some_byte r l);
      }

  pub write_piece-IsValid :
      (p : List ℕ) (c : Chunker h) (w : World) → IsValid c → RoundIsValid p c (write_piece h p c w)
  unfolding write_piece
  write_piece-IsValid p c w v =
      let n : ℕ = min (length p) (c.raw_per_chunk - c.cur_raw) in
      count_part-IsValid p n c (stage h (take n p) c w) v (stage-SameCounts (take n p) c w)
        (omega arith) (omega (arith, v.within)) (λ r l. omega arith)

  -- What the whole loop has done.
  pub record LoopIsValid (p : List ℕ) (c : Chunker h) (r : Progress h) : Type 0 where
    pub valid : IsValid r.2
    pub consumed : length r.0 + r.2.raw_seen ≡ length p + c.raw_seen
    pub shorter : length r.0 ≤ length p
    pub complete : r.1 ≡ none → length r.0 ≡ 0
    pub room : c.cur_raw < c.raw_per_chunk → r.1 ≡ none → r.2.cur_raw < r.2.raw_per_chunk

  abbrev Ends : List ℕ → Chunker h → Option (Progress h) → Type 0
  Ends p c o = (r : Progress h) × (o ≡ some r) × LoopIsValid p c r

  abbrev Continues : ℕ → (List ℕ → Chunker h → World → Option (Progress h)) → Type 0
  Continues fuel again =
      (q : List ℕ) (c : Chunker h) (w : World)
      → IsValid c
      → length q ≤ fuel
      → c.cur_raw < c.raw_per_chunk
      → Ends q c (again q c w)

  resume_lem :
      (fuel : ℕ) (again : List ℕ → Chunker h → World → Option (Progress h))
      → Continues fuel again
      → (p : List ℕ) (c : Chunker h) (r : Progress h) → RoundIsValid p c r
      → (r.1 ≡ none → length r.0 ≤ fuel)
      → Ends p c (resume h again r)
  unfolding resume
  resume_lem fuel again ih p c (q, some e, c', w) v short = (
    (q, some e, c', w),
    refl,
    record {
      valid = v.valid;
      consumed = v.consumed;
      shorter = v.shorter;
      complete = λ ok. cc;
      room = λ a ok. cc;
    },
  )
  resume_lem fuel again ih p c (q, none, c', w) v short =
      let (r, eq, l) = ih q c' w v.valid (short refl) (v.room refl) in
      (
        r,
        eq,
        record {
          valid = l.valid;
          consumed = omega (arith, l.consumed, v.consumed);
          shorter = omega (arith, l.shorter, v.shorter);
          complete = l.complete;
          room = λ a ok. l.room (v.room refl) ok;
        },
      )

  ends_empty : (c : Chunker h) (w : World) → IsValid c → LoopIsValid [] c ([], none, c, w)
  ends_empty c w v = record {
    valid = v;
    consumed = refl;
    shorter = omega arith;
    complete = λ ok. refl;
    room = λ a ok. a;
  }

  write_loop_ends : (fuel : ℕ) → Continues fuel (write_loop h fuel)
  unfolding write_loop
  write_loop_ends fuel [] c w v short room = (([], none, c, w), refl, ends_empty c w v)
  write_loop_ends zero (x ∷ p) c w v short room = absurd (omega arith)
  write_loop_ends (suc fuel) (x ∷ p) c w v short room =
      let round = write_piece-IsValid (x ∷ p) c w v in
      resume_lem fuel (write_loop h fuel) (write_loop_ends fuel) (x ∷ p) c
        (write_piece h (x ∷ p) c w) round
        (λ ok. omega (arith, round.progress room (omega arith) ok))

  -- From any valid state one round more is enough.
  pub write_loop_total :
      (fuel : ℕ) (p : List ℕ) (c : Chunker h) (w : World)
      → IsValid c
      → length p < fuel
      → Ends p c (write_loop h fuel p c w)
  unfolding write_loop
  write_loop_total fuel [] c w v short = (([], none, c, w), refl, ends_empty c w v)
  write_loop_total zero (x ∷ p) c w v short = absurd (omega arith)
  write_loop_total (suc fuel) (x ∷ p) c w v short =
      let round = write_piece-IsValid (x ∷ p) c w v in
      resume_lem fuel (write_loop h fuel) (write_loop_ends fuel) (x ∷ p) c
        (write_piece h (x ∷ p) c w) round (λ ok. omega (arith, round.shorter))

  -- What `Write` returns for the bytes `p` from the state `c`.
  pub record Returns (p : List ℕ) (c : Chunker h) (r : Written h) : Type 0 where
    pub valid : IsValid r.2
    pub counted : r.2.raw_seen ≡ c.raw_seen + r.0
    pub at_most : r.0 ≤ length p
    pub all_of_it : r.1 ≡ none → (r.0 ≡ length p) × Paired h r.2

  counted_end :
      (p : List ℕ) (c : Chunker h) {o : Option (Progress h)}
      → Ends p c o
      → SafeLoop h o
      → (r : Written h) × (count_written h (length p) o ≡ some r) × Returns p c r
  unfolding count_written
  counted_end p c ((q, some panicked, c', w), eq, l) safe = absurd (rw eq at safe)
  counted_end p c ((q, some (error e), c', w), eq, l) safe = (
    (length p - length q, some e, c', w),
    rw eq,
    record {
      valid = l.valid;
      counted = omega (arith, l.consumed, l.shorter);
      at_most = omega arith;
      all_of_it = λ ok. absurd cc;
    },
  )
  counted_end p c ((q, none, c', w), eq, l) safe = (
    (length p - length q, none, c', w),
    rw eq,
    record {
      valid = l.valid;
      counted = omega (arith, l.consumed, l.shorter);
      at_most = omega arith;
      all_of_it = λ ok. (omega (arith, l.complete refl), (rw eq at safe));
    },
  )

  -- From a state with valid counters in which an open staging file has its encoder, `Write` returns and does not
  -- panic, whatever the host does. The count that it returns is the number of bytes that it counted in `raw_seen`:
  -- at most what it was given, and all of it unless it reports an error. The counters stay valid, and without an
  -- error an open file has its encoder again.
  pub write_lem :
      (p : List ℕ) (c : Chunker h) (w : World)
      → IsValid c
      → Paired h c
      → (r : Written h) × (write h p c w ≡ some r) × Returns p c r
  unfolding write
  write_lem p c w v paired = elim (Option-cases (h.ctx_err w)) [
    | inl live ↦ rw live (
        counted_end p c (write_loop_total (length p + 1) p c w v (omega arith))
          (write_loop-Safely h (length p + 1) p c w paired))
    | inr (e, dead) ↦ rw dead (
      (0, some e, c, w),
      refl,
      record {
        valid = v;
        counted = omega arith;
        at_most = omega arith;
        all_of_it = λ ok. absurd cc;
      },
    )
  ]
