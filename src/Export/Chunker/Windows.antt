-- ===== src/Export/Chunker/Windows.antt =====
-- The stream through `Write` and `Close` (openvtld/internal/export/tarchunk.go) on a host that never
-- fails: the deliveries decode to the stream, from the first chunk that is not skipped.
use open_vtl.Prelude.{
  ℕ, ◌+◌, ◌≤◌, ◌<◌, ◌≡◌, refl, sym, ap, String, true, false, none, some, List, [], ◌∷◌, ◌++◌,
  append-nil, arith, length, length-append, leb, ◌==◌, inl, inr, Bool-cases, nil_of_length,
}
use open_vtl.Export.Chunker.{Chunker, Outcome, boundary, finish_window}
use open_vtl.Export.Chunker.Codec.{
  Codec, Delivery, restored, Numbered, restored-append, Numbered-append,
}
use open_vtl.Export.Chunker.Content.{
  H, Staged, skipping, idle, busy, Follows, closed, delivery, close_busy,
}

module _ (k : Codec) (hash : List ℕ → String) (size skip : ℕ) where
  open k use {decode, start, push, flush, round_trip}

  -- A step that did not fail, and the stream that its state follows.
  abbrev pub Ends : List ℕ → Outcome (H k hash) → Type 0
  Ends d o =
      (c : Chunker (H k hash)) × (w : List Delivery) × (o ≡ (none, c, w))
      × Follows k hash size skip d c w
      × (c.cur_raw < c.raw_per_chunk)

  abbrev fresh_window : Chunker (H k hash) → Chunker (H k hash)
  fresh_window c = record c { idx = c.idx + 1; cur_raw = 0 }

  boundary_full :
      (c : Chunker (H k hash)) (w : List Delivery) {c' : Chunker (H k hash)} {w' : List Delivery}
      → c.cur_raw ≡ c.raw_per_chunk
      → finish_window (H k hash) c w ≡ (none, c', w')
      → boundary (H k hash) c w ≡ (none, fresh_window c', w')
  unfolding boundary
  boundary_full c w full e = ground arith

  fresh-Staged :
      (c : Chunker (H k hash))
      → c.f ≡ none
      → c.enc ≡ none
      → Staged k hash size skip [] (fresh_window c)
  fresh-Staged c f enc = elim (Bool-cases (leb c.skip_until (c.idx + 1))) [
    | inl s ↦ idle f enc s refl
    | inr s ↦ skipping f enc s
  ]

  boundary_skipping :
      {d : List ℕ} {c : Chunker (H k hash)} {w : List Delivery}
      → Follows k hash size skip d c w
      → c.cur_raw ≡ c.raw_per_chunk
      → c.f ≡ none
      → c.enc ≡ none
      → leb c.skip_until c.idx ≡ false
      → Ends d (boundary (H k hash) c w)
  unfolding finish_window restored
  boundary_skipping {d} {c} {w} v full f enc s =
      let below : c.idx < c.skip_until = ground arith in
      let empty : w ≡ [] = nil_of_length w (omega (arith, v.deliveries, v.base_lem)) in
      let skipped : finish_window (H k hash) c w ≡ (none, c, w) = rw s in
      (
        fresh_window c,
        w,
        boundary_full c w full skipped,
        record {
          before = v.before ++ v.tail;
          tail = [];
          base = v.base + 1;
          split = rw empty (rw append-nil (rw empty at v.split));
          same_size = v.same_size;
          same_skip = v.same_skip;
          positive = v.positive;
          within = omega arith;
          tail_counted = refl;
          base_lem = omega (arith, v.base_lem);
          before_counted =
              omega (arith, length-append v.before v.tail, v.before_counted, v.tail_counted);
          position = omega (arith, v.position);
          deliveries = omega (arith, v.deliveries);
          numbered = v.numbered;
          staged = fresh-Staged c f enc;
        },
        v.positive,
      )

  -- The frame of a full window: its delivery decodes to the window.
  pub delivered :
      {d : List ℕ} {c : Chunker (H k hash)} {w : List Delivery}
      → (v : Follows k hash size skip d c w) → (path : String) (e : k.Encoder)
      → leb c.skip_until c.idx ≡ true
      → decode (c.sum ++ flush e) ≡ v.tail
      → c.stored ≡ length c.sum
      → let w' = w ++ delivery k hash size skip c path e ∷ [] in
        (v.before ++ restored decode w' ≡ d)
        × Numbered decode hash c.skip_until w'
        × (v.base + length w' ≡ c.idx + 1)
        × (v.base ≡ c.skip_until)
  delivered {d} {c} {w} v path e s decoded counted =
      let above : c.skip_until ≤ c.idx = ground arith in
      (
        rw (restored-append decode w (delivery k hash size skip c path e)) (rw decoded v.split),
        Numbered-append decode hash c.skip_until c.idx w (delivery k hash size skip c path e)
            v.numbered (omega (arith, v.deliveries, v.base_lem))
            (
              refl,
              rw decoded (sym v.tail_counted),
              omega (arith, length-append c.sum (flush e)),
              refl,
              tt,
            ),
        omega (arith, length-append w (delivery k hash size skip c path e ∷ []), v.deliveries),
        omega (arith, v.base_lem),
      )

  boundary_busy :
      {d : List ℕ} {c : Chunker (H k hash)} {w : List Delivery}
      → (v : Follows k hash size skip d c w) → c.cur_raw ≡ c.raw_per_chunk
      → (path : String) (e : k.Encoder) → c.f ≡ some path
      → c.enc ≡ some e
      → leb c.skip_until c.idx ≡ true
      → decode (c.sum ++ flush e) ≡ v.tail
      → c.stored ≡ length c.sum
      → Ends d (boundary (H k hash) c w)
  unfolding finish_window
  boundary_busy {d} {c} {w} v full path e f enc s decoded counted =
      let (split, numbered, count, base) = delivered v path e s decoded counted in
      let above : c.skip_until ≤ c.idx = ground arith in
      let w' = w ++ delivery k hash size skip c path e ∷ [] in
      let finished : finish_window (H k hash) c w ≡ (none, closed k hash size skip c e, w') =
        rw s (close_busy k hash size skip c w path e f enc) in
      (
        fresh_window (closed k hash size skip c e),
        w',
        boundary_full c w full finished,
        record {
          before = v.before;
          tail = [];
          base = v.base;
          split = rw append-nil split;
          same_size = v.same_size;
          same_skip = v.same_skip;
          positive = v.positive;
          within = omega arith;
          tail_counted = refl;
          base_lem = omega arith;
          before_counted = v.before_counted;
          position = omega (arith, v.position);
          deliveries = count;
          numbered = numbered;
          staged = fresh-Staged (closed k hash size skip c e) refl refl;
        },
        v.positive,
      )

  boundary_full-Staged :
      {d : List ℕ} {c : Chunker (H k hash)} {w : List Delivery}
      → (v : Follows k hash size skip d c w) → c.cur_raw ≡ c.raw_per_chunk
      → Staged k hash size skip v.tail c
      → Ends d (boundary (H k hash) c w)
  boundary_full-Staged v full (skipping f enc s) = boundary_skipping v full f enc s
  boundary_full-Staged v full (idle f enc s empty) =
      absurd (omega (arith, v.tail_counted, v.positive, ap length empty))
  boundary_full-Staged v full (busy path e f enc s frame counted) =
      boundary_busy v full path e f enc s (round_trip frame) counted

  boundary_partial :
      (c : Chunker (H k hash)) (w : List Delivery)
      → (c.cur_raw == c.raw_per_chunk) ≡ false
      → boundary (H k hash) c w ≡ (none, c, w)
  unfolding boundary
  boundary_partial c w e = rw e

  pub boundary-Follows :
      {d : List ℕ} (c : Chunker (H k hash)) (w : List Delivery)
      → Follows k hash size skip d c w
      → Ends d (boundary (H k hash) c w)
  boundary-Follows c w v = elim (Bool-cases (c.cur_raw == c.raw_per_chunk)) [
    | inl full ↦ boundary_full-Staged v (ground arith) v.staged
    | inr more ↦ let within = v.within in (c, w, boundary_partial c w more, v, ground arith)
  ]
