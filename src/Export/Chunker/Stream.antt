-- ===== src/Export/Chunker/Stream.antt =====
-- A whole stream through `Write` and `Close` (openvtld/internal/export/tarchunk.go) on a host that
-- never fails.
use open_vtl.Prelude.{
  ℕ, zero, suc, ◌+◌, ◌-◌, ◌≤◌, ◌<◌, ◌≡◌, refl, ap, String, Option, none, some, List, [], ◌∷◌, ◌++◌,
  append-nil, append_assoc, arith, min, length, take, drop, length-drop, length-take,
  take-append-drop, leb, inl, inr, Bool-cases,
}
use mathlib.Core.List.{flatten}
use open_vtl.Export.Chunker.{
  Chunker, Outcome, Progress, new_chunker, write_piece, write_loop, write, write_all, count_part,
  count_written,
}
use open_vtl.Export.Chunker.Codec.{Codec, Delivery, restored}
use open_vtl.Export.Chunker.Content.{H, skipping, idle, Follows, grown, stage-Follows}
use open_vtl.Export.Chunker.Windows.{boundary-Follows}

module _ (k : Codec) (hash : List ℕ → String) (size skip : ℕ) where
  open k use {decode}

  -- After a round: the bytes `q` were consumed, the rest is left.
  abbrev Consumes : List ℕ → List ℕ → Progress (H k hash) → Type 0
  Consumes d p r =
      (n : ℕ) × (c : Chunker (H k hash)) × (w : List Delivery) × (r ≡ (drop n p, none, c, w))
      × (0 < length p → 0 < n)
      × Follows k hash size skip (d ++ take n p) c w
      × (c.cur_raw < c.raw_per_chunk)

  count_part-Follows :
      (d p : List ℕ) (n : ℕ) (c : Chunker (H k hash)) (w : List Delivery)
      → (0 < length p → 0 < n)
      → Follows k hash size skip (d ++ take n p) (grown k hash size skip c n) w
      → Consumes d p (count_part (H k hash) p n (none, c, w))
  unfolding count_part
  count_part-Follows d p n c w some_byte v =
      let (c', w', e, v', room) =
        boundary-Follows k hash size skip (grown k hash size skip c n) w v in
      (n, c', w', rw e, some_byte, v', room)

  write_piece-Follows :
      (d p : List ℕ) (c : Chunker (H k hash)) (w : List Delivery)
      → Follows k hash size skip d c w
      → c.cur_raw < c.raw_per_chunk
      → Consumes d p (write_piece (H k hash) p c w)
  unfolding write_piece
  write_piece-Follows d p c w v room =
      let n : ℕ = min (length p) (c.raw_per_chunk - c.cur_raw) in
      let (c', e, v') =
        stage-Follows k hash size skip (take n p) n c w v (omega (arith, length-take n p))
          (omega arith) in
      rw e (count_part-Follows d p n c' w (λ l. omega arith) v')

  abbrev Absorbs : List ℕ → Option (Progress (H k hash)) → Type 0
  Absorbs d o =
      (c : Chunker (H k hash)) × (w : List Delivery) × (o ≡ some ([], none, c, w))
      × Follows k hash size skip d c w
      × (c.cur_raw < c.raw_per_chunk)

  write_loop-Follows :
      (fuel : ℕ) (d p : List ℕ) (c : Chunker (H k hash)) (w : List Delivery)
      → length p ≤ fuel
      → Follows k hash size skip d c w
      → c.cur_raw < c.raw_per_chunk
      → Absorbs (d ++ p) (write_loop (H k hash) fuel p c w)
  unfolding write_loop
  write_loop-Follows fuel d [] c w short v room = (c, w, refl, rw append-nil v, room)
  write_loop-Follows zero d (x ∷ p) c w short v room = absurd (omega arith)
  write_loop-Follows (suc fuel) d (x ∷ p) c w short v room =
      let (n, c', w', e, some_byte, v', room') = write_piece-Follows d (x ∷ p) c w v room in
      let (c'', w'', e', v'', room'') =
        write_loop-Follows fuel (d ++ take n (x ∷ p)) (drop n (x ∷ p)) c' w'
          (omega (arith, length-drop n (x ∷ p), some_byte (omega arith))) v' room' in
      (c'', w'', rw e e', rw (append_assoc, take-append-drop) at v'', room'')

  abbrev pub Writes : List ℕ → Option (Outcome (H k hash)) → Type 0
  Writes d o =
      (c : Chunker (H k hash)) × (w : List Delivery) × (o ≡ some (none, c, w))
      × Follows k hash size skip d c w
      × (c.cur_raw < c.raw_per_chunk)

  written_in_full :
      (p : List ℕ) (c : Chunker (H k hash)) (w : List Delivery)
      → count_written (H k hash) (length p) (some ([], none, c, w)) ≡ some (length p, none, c, w)
  unfolding count_written
  written_in_full p c w = ap (λ n. some (n, none, c, w)) (omega arith)

  write-Follows :
      (d p : List ℕ) (c : Chunker (H k hash)) (w : List Delivery)
      → Follows k hash size skip d c w
      → c.cur_raw < c.raw_per_chunk
      → (c' : Chunker (H k hash)) × (w' : List Delivery) × (write (H k hash) p c w
          ≡ some (length p, none, c', w'))
        × Follows k hash size skip (d ++ p) c' w'
        × (c'.cur_raw < c'.raw_per_chunk)
  unfolding write
  write-Follows d p c w v room =
      let (c', w', e, v', room') = write_loop-Follows (length p + 1) d p c w (omega arith) v room in
      (c', w', rw e (written_in_full p c' w'), v', room')

  pub write_all-Follows :
      (ps : List (List ℕ)) (d : List ℕ) (c : Chunker (H k hash)) (w : List Delivery)
      → Follows k hash size skip d c w
      → c.cur_raw < c.raw_per_chunk
      → Writes (d ++ flatten ps) (write_all (H k hash) ps c w)
  unfolding write_all flatten
  write_all-Follows [] d c w v room = (c, w, refl, rw append-nil v, room)
  write_all-Follows (p ∷ ps) d c w v room =
      let (c', w', e, v', room') = write-Follows d p c w v room in
      let (c'', w'', e', v'', room'') = write_all-Follows ps (d ++ p) c' w' v' room' in
      (c'', w'', rw e e', rw append_assoc at v'', room'')

  pub new_chunker-Follows :
      0 < size → Follows k hash size skip [] (new_chunker (H k hash) size skip) []
  unfolding new_chunker restored
  new_chunker-Follows h = record {
    before = [];
    tail = [];
    base = 0;
    split = refl;
    same_size = refl;
    same_skip = refl;
    positive = h;
    within = omega arith;
    tail_counted = refl;
    base_lem = omega arith;
    before_counted = omega arith;
    position = omega arith;
    deliveries = refl;
    numbered = tt;
    staged = elim (Bool-cases (leb skip 0)) [
      | inl s ↦ idle refl refl s refl
      | inr s ↦ skipping refl refl s
    ];
  }
