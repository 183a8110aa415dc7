-- ===== src/Export/Chunker/Content.antt =====
-- What the sink of the chunker (openvtld/internal/export/tarchunk.go) receives, on a host that never
-- fails: the windows of the stream, each as one frame, from the first chunk that is not skipped.
use open_vtl.Prelude.{
  ℕ, ◌+◌, ◌*◌, ◌≤◌, ◌<◌, ◌≡◌, refl, String, true, false, Option, none, some, List, [], ◌∷◌, ◌++◌,
  append_assoc, arith, min, length, length-append, leb,
}
use open_vtl.Export.Chunker.{Host, Chunker, open_chunk, close_chunk, stage}
use open_vtl.Export.Chunker.Codec.{Codec, Fed, fresh, fed, Delivery, reliable, restored, Numbered}

abbrev pub H : Codec → (List ℕ → String) → Host
H = reliable

module _ (k : Codec) (hash : List ℕ → String) (size skip : ℕ) where
  open k use {decode, start, push, flush, round_trip}

  -- The staging file: none before the first byte of a window and while skipping, else a frame that
  -- holds the bytes of the window so far.
  pub data Staged (tail : List ℕ) (c : Chunker (H k hash)) : Type 0 where
    skipping : c.f ≡ none → c.enc ≡ none → leb c.skip_until c.idx ≡ false → Staged tail c
    idle : c.f ≡ none → c.enc ≡ none → leb c.skip_until c.idx ≡ true → tail ≡ [] → Staged tail c
    busy :
        (path : String) (e : k.Encoder)
        → c.f ≡ some path
        → c.enc ≡ some e
        → leb c.skip_until c.idx ≡ true
        → Fed start push e c.sum tail
        → c.stored ≡ length c.sum
        → Staged tail c

  -- The stream `d` so far: what was skipped, what the deliveries hold, and the open window.
  pub record Follows (d : List ℕ) (c : Chunker (H k hash)) (w : List Delivery) : Type 0 where
    pub before : List ℕ
    pub tail : List ℕ
    pub base : ℕ
    pub split : before ++ (restored decode w ++ tail) ≡ d
    pub same_size : c.raw_per_chunk ≡ size
    pub same_skip : c.skip_until ≡ skip
    pub positive : 0 < c.raw_per_chunk
    pub within : c.cur_raw ≤ c.raw_per_chunk
    pub tail_counted : length tail ≡ c.cur_raw
    pub base_lem : base ≡ min c.idx c.skip_until
    pub before_counted : length before ≡ base * c.raw_per_chunk
    pub position : c.idx * c.raw_per_chunk + c.cur_raw ≡ length d
    pub deliveries : base + length w ≡ c.idx
    pub numbered : Numbered decode hash c.skip_until w
    pub staged : Staged tail c

  abbrev fed_frame :
      Chunker (H k hash) → String → k.Encoder → List ℕ → List ℕ → ℕ → Chunker (H k hash)
  fed_frame c path e part sum stored =
      let out = (push e part).1 in
      record c {
        f = some path;
        enc = some (push e part).0;
        sum = sum ++ out;
        stored = stored + length out;
      }

  stage_skipping :
      (part : List ℕ) (c : Chunker (H k hash)) (w : List Delivery)
      → leb c.skip_until c.idx ≡ false
      → stage (H k hash) part c w ≡ (none, c, w)
  unfolding stage
  stage_skipping part c w s = rw s

  stage_idle :
      (part : List ℕ) (c : Chunker (H k hash)) (w : List Delivery)
      → c.f ≡ none
      → leb c.skip_until c.idx ≡ true
      → stage (H k hash) part c w ≡ (none, fed_frame c "chunk.tar.zst.tmp" start part [] 0, w)
  unfolding stage open_chunk
  stage_idle part c w f s = ground arith

  stage_busy :
      (part : List ℕ) (c : Chunker (H k hash)) (w : List Delivery) (path : String) (e : k.Encoder)
      → c.f ≡ some path
      → c.enc ≡ some e
      → leb c.skip_until c.idx ≡ true
      → stage (H k hash) part c w ≡ (none, fed_frame c path e part c.sum c.stored, w)
  unfolding stage
  stage_busy part c w path e f enc s = ground arith

  abbrev pub delivery : Chunker (H k hash) → String → k.Encoder → Delivery
  delivery c path e =
      let content = c.sum ++ flush e in
      record {
        result = record {
          idx = c.idx;
          stage_path = path;
          raw_bytes = c.cur_raw;
          stored_bytes = c.stored + length (flush e);
          sha256 = hash content;
        };
        content = content;
      }

  abbrev pub closed : Chunker (H k hash) → k.Encoder → Chunker (H k hash)
  closed c e = record c {
    f = none;
    enc = none;
    sum = c.sum ++ flush e;
    stored = c.stored + length (flush e);
  }

  pub close_busy :
      (c : Chunker (H k hash)) (w : List Delivery) (path : String) (e : k.Encoder)
      → c.f ≡ some path
      → c.enc ≡ some e
      → close_chunk (H k hash) c w ≡ (none, closed c e, w ++ delivery c path e ∷ [])
  unfolding close_chunk
  close_busy c w path e f enc = ground arith

  abbrev pub grown : Chunker (H k hash) → ℕ → Chunker (H k hash)
  grown c n = record c { cur_raw = c.cur_raw + n; raw_seen = c.raw_seen + n }

  append_to_split :
      (before mid tail part : List ℕ) {d : List ℕ}
      → before ++ (mid ++ tail) ≡ d
      → before ++ (mid ++ (tail ++ part)) ≡ d ++ part
  append_to_split before mid tail part e = rw (← e) (simp append_assoc)

  -- The window grows by `part`, once the staging file holds it.
  grow :
      {d : List ℕ} {c : Chunker (H k hash)} {w : List Delivery} (v : Follows d c w)
      → (part : List ℕ) (n : ℕ) → length part ≡ n
      → c.cur_raw + n ≤ c.raw_per_chunk
      → (f : Option String) (enc : Option k.Encoder) (sum : List ℕ) (stored : ℕ)
      → let c' = grown (record c { f = f; enc = enc; sum = sum; stored = stored }) n in
        Staged (v.tail ++ part) c' → Follows (d ++ part) c' w
  grow {d} {c} {w} v part n len fits f enc sum stored staged = record {
    before = v.before;
    tail = v.tail ++ part;
    base = v.base;
    split = append_to_split v.before (restored decode w) v.tail part v.split;
    same_size = v.same_size;
    same_skip = v.same_skip;
    positive = v.positive;
    within = fits;
    tail_counted = omega (arith, length-append v.tail part, v.tail_counted);
    base_lem = v.base_lem;
    before_counted = v.before_counted;
    position = omega (arith, length-append d part, v.position);
    deliveries = v.deliveries;
    numbered = v.numbered;
    staged = staged;
  }

  abbrev Stages : List ℕ → List ℕ → ℕ → Chunker (H k hash) → List Delivery → Type 0
  Stages d part n c w =
      (c' : Chunker (H k hash)) × (stage (H k hash) part c w ≡ (none, c', w))
      × Follows (d ++ part) (grown c' n) w

  stage-Staged :
      {d : List ℕ} (part : List ℕ) (n : ℕ) (c : Chunker (H k hash)) (w : List Delivery)
      → (v : Follows d c w) → length part ≡ n
      → c.cur_raw + n ≤ c.raw_per_chunk
      → Staged v.tail c
      → Stages d part n c w
  stage-Staged part n c w v len fits (skipping f enc s) = (
    c,
    stage_skipping part c w s,
    grow v part n len fits c.f c.enc c.sum c.stored (skipping f enc s),
  )
  stage-Staged part n c w v len fits (idle f enc s empty) =
      let frame = fed fresh part in
      (
        fed_frame c "chunk.tar.zst.tmp" start part [] 0,
        stage_idle part c w f s,
        grow v part n len fits _ _ _ _ (
            busy "chunk.tar.zst.tmp" (push start part).0 refl refl s (rw empty frame)
              (omega arith)),
      )
  stage-Staged part n c w v len fits (busy path e f enc s frame counted) = (
    fed_frame c path e part c.sum c.stored,
    stage_busy part c w path e f enc s,
    grow v part n len fits _ _ _ _ (
        busy path (push e part).0 refl refl s (fed frame part)
          (omega (arith, length-append c.sum (push e part).1))),
  )

  pub stage-Follows :
      {d : List ℕ} (part : List ℕ) (n : ℕ) (c : Chunker (H k hash)) (w : List Delivery)
      → Follows d c w
      → length part ≡ n
      → c.cur_raw + n ≤ c.raw_per_chunk
      → Stages d part n c w
  stage-Follows part n c w v len fits = stage-Staged part n c w v len fits v.staged
