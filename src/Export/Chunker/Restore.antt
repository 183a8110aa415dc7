-- ===== src/Export/Chunker/Restore.antt =====
-- `Close` after a whole stream (openvtld/internal/export/tarchunk.go): decoding what the sink received
-- gives back the stream, from the resume point on.
use mathlib.Core.List.{flatten}
use native.Mathlib.Nat.{mul-le-mul_right}
use open_vtl.Prelude.{
  ℕ, suc, ◌+◌, ◌-◌, ◌*◌, ◌/◌, ◌≤◌, ◌<◌, ◌≡◌, refl, sym, ap, ◌∙◌, subst, String, true, false, none,
  some, List, [], ◌∷◌, ◌++◌, append-nil, arith, length, length-append, leb, ltb, inl, inr,
  Bool-cases, drop, drop-append, drop_all, nil_of_length, round_up_rest, round_up_exact,
}
use open_vtl.Export.Chunker.{Chunker, Outcome, new_chunker, chunks_total, write_all, close}
use open_vtl.Export.Chunker.Codec.{Codec, Delivery, restored, Numbered}
use open_vtl.Export.Chunker.Content.{
  H, Staged, skipping, idle, busy, Follows, delivery, closed, close_busy,
}
use open_vtl.Export.Chunker.Windows.{delivered}
use open_vtl.Export.Chunker.Stream.{write_all-Follows, new_chunker-Follows}

module _ (k : Codec) (hash : List ℕ → String) (size skip : ℕ) where
  open k use {decode, flush, round_trip}

  dropped :
      (n : ℕ) (before rest : List ℕ) {d : List ℕ}
      → before ++ rest ≡ d
      → length before ≡ n
      → rest ≡ drop n d
  dropped n before rest e len = rw (← e) (sym (drop-append n before rest len))

  length-append_lem :
      (xs ys : List ℕ) {d : List ℕ} → xs ++ ys ≡ d → length xs + length ys ≡ length d
  length-append_lem xs ys e = sym (length-append xs ys) ∙ ap length e

  -- The log after `Close`: the stream from chunk `skip` on, one delivery for each chunk.
  abbrev pub Closes : List ℕ → Chunker (H k hash) → Outcome (H k hash) → Type 0
  Closes d c o =
      (c' : Chunker (H k hash)) × (w : List Delivery) × (o ≡ (none, c', w))
      × (restored decode w ≡ drop (skip * size) d)
      × Numbered decode hash skip w
      × (length w ≡ chunks_total (H k hash) c - skip)

  -- Past the skipped chunks, what stands before the deliveries is exactly the skipped part.
  before_skipped :
      {d : List ℕ} {c : Chunker (H k hash)} {w : List Delivery} (v : Follows k hash size skip d c w)
      → v.base ≡ c.skip_until
      → length v.before ≡ skip * size
  before_skipped {d} {c} v e = omega (
    arith,
    v.before_counted,
    v.same_skip,
    e,
    ap (λ (b : ℕ). b * c.raw_per_chunk) (e ∙ v.same_skip),
    ap (λ (s : ℕ). skip * s) v.same_size,
  )

  close_whole :
      {d : List ℕ} {c : Chunker (H k hash)} {w : List Delivery} (v : Follows k hash size skip d c w)
      → v.tail ≡ []
      → leb c.skip_until c.idx ≡ true
      → close (H k hash) c w ≡ (none, c, w)
      → Closes d c (close (H k hash) c w)
  unfolding chunks_total
  close_whole {d} {c} {w} v empty s e =
      let above : c.skip_until ≤ c.idx = ground arith in
      let none_open : c.cur_raw ≡ 0 = omega (arith, v.tail_counted, ap length empty) in
      let base : v.base ≡ c.skip_until = omega (arith, v.base_lem) in
      (
        c,
        w,
        e,
        dropped (skip * size) v.before (restored decode w) (rw append-nil at (rw empty at v.split))
            (before_skipped v base),
        subst (λ i. Numbered decode hash i w) v.same_skip v.numbered,
        ground (arith, v.deliveries, v.same_skip),
      )

  close_skipped :
      {d : List ℕ} {c : Chunker (H k hash)} {w : List Delivery} (v : Follows k hash size skip d c w)
      → c.cur_raw < c.raw_per_chunk
      → c.f ≡ none
      → leb c.skip_until c.idx ≡ false
      → Closes d c (close (H k hash) c w)
  unfolding close restored chunks_total
  close_skipped {d} {c} {w} v room f s =
      let below : c.idx < c.skip_until = ground arith in
      let base : v.base ≡ c.idx = omega (arith, v.base_lem) in
      let empty : w ≡ [] = nil_of_length w (omega (arith, v.deliveries, v.base_lem)) in
      let whole : length v.before + length v.tail ≡ length d =
        length-append_lem v.before v.tail (rw empty at v.split) in
      let short : length d ≤ skip * size = omega (
        arith,
        v.before_counted,
        v.tail_counted,
        v.same_skip,
        ap (λ (b : ℕ). b * c.raw_per_chunk) base,
        ap (λ (b : ℕ). b * c.raw_per_chunk) v.same_skip,
        ap (λ (t : ℕ). skip * t) v.same_size,
        mul-le-mul_right {m = suc c.idx} {n = c.skip_until} c.raw_per_chunk below,
      ) in
      (
        c,
        w,
        ground arith,
        rw (empty, drop_all (skip * size) d short) refl,
        rw empty tt,
        ground (arith, v.same_skip, ap length empty),
      )

  -- A window that is open and not empty is delivered.
  close_partial :
      {d : List ℕ} {c : Chunker (H k hash)} {w : List Delivery} (v : Follows k hash size skip d c w)
      → 0 < c.cur_raw
      → (path : String) (e : k.Encoder) → c.f ≡ some path
      → c.enc ≡ some e
      → leb c.skip_until c.idx ≡ true
      → decode (c.sum ++ flush e) ≡ v.tail
      → c.stored ≡ length c.sum
      → Closes d c (close (H k hash) c w)
  unfolding close chunks_total
  close_partial {d} {c} {w} v some_byte path e f enc s decoded counted =
      let w' = w ++ delivery k hash size skip c path e ∷ [] in
      let (split, numbered, count, base) = delivered k hash size skip v path e s decoded counted in
      (
        closed k hash size skip c e,
        w',
        ground (arith, close_busy k hash size skip c w path e f enc),
        dropped (skip * size) v.before (restored decode w') split (before_skipped v base),
        subst (λ i. Numbered decode hash i w') v.same_skip numbered,
        ground (arith, v.same_skip),
      )

  close-Follows :
      {d : List ℕ} {c : Chunker (H k hash)} {w : List Delivery} (v : Follows k hash size skip d c w)
      → c.cur_raw < c.raw_per_chunk
      → Staged k hash size skip v.tail c
      → Closes d c (close (H k hash) c w)
  unfolding close
  close-Follows v room (skipping f enc s) = close_skipped v room f s
  close-Follows v room (idle f enc s empty) =
      close_whole v empty s (ground (arith, v.tail_counted, ap length empty))
  close-Follows {d} {c} {w} v room (busy path e f enc s frame counted) =
      elim (Bool-cases (ltb 0 c.cur_raw)) [
        | inl more ↦ close_partial v (ground arith) path e f enc s (round_trip frame) counted
        | inr done ↦
            close_whole v (nil_of_length v.tail (ground (arith, v.tail_counted))) s (ground arith)
      ]

  -- `runExport` counts the chunks of a stream of `n` bytes as n / size, rounded up.
  chunks_total-Follows :
      {d : List ℕ} {c : Chunker (H k hash)} {w : List Delivery} (v : Follows k hash size skip d c w)
      → c.cur_raw < c.raw_per_chunk
      → chunks_total (H k hash) c ≡ (length d + (size - 1)) / size
  unfolding chunks_total
  chunks_total-Follows {d} {c} v room =
      let p : c.idx * size + c.cur_raw ≡ length d = rw v.same_size at v.position in
      elim (Bool-cases (ltb 0 c.cur_raw)) [
        | inl more ↦ rw more (
            sym (
              round_up_rest c.idx size c.cur_raw (length d) (ground arith)
                (omega (arith, v.same_size)) p))
        | inr full ↦ rw full (
            sym (
              round_up_exact c.idx size (length d) (omega (arith, v.same_size, v.positive))
                (ground arith)))
      ]

  -- On a host that never fails, a stream written in any parts and closed: every call succeeds; the
  -- sink has received one delivery for each chunk from `skip` on, in order and each described by its
  -- own index, sizes and hash; and their frames decode, one after the other, to the stream without
  -- its first `skip` windows. The chunks of the stream are its length over the window size, rounded up.
  pub stream_restored :
      (ps : List (List ℕ))
      → 0 < size
      → (c : Chunker (H k hash)) × (w : List Delivery) × (write_all
            (H k hash)
            ps
            (new_chunker (H k hash) size skip)
            []
          ≡ some (none, c, w))
        × Closes (flatten ps) c (close (H k hash) c w)
        × (chunks_total (H k hash) c ≡ (length (flatten ps) + (size - 1)) / size)
  stream_restored ps pos =
      let (c, w, e, v, room) =
        write_all-Follows k hash size skip ps [] (new_chunker (H k hash) size skip) []
          (new_chunker-Follows k hash size skip pos) (unfold new_chunker in pos) in
      (c, w, e, close-Follows v room v.staged, chunks_total-Follows v room)
