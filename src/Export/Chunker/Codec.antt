-- ===== src/Export/Chunker/Codec.antt =====
-- A host that never fails, over any stream compressor, and the log of what the sink received. The
-- encoder of openvtld/internal/export/tarchunk.go is klauspost's zstd: what is assumed of it is the
-- round trip of one frame.
use open_vtl.Prelude.{
  ℕ, suc, String, ◌≡◌, refl, none, List, [], ◌∷◌, ◌++◌, append-nil, append_assoc, ap, ◌+◌, arith,
  length,
}
use open_vtl.Export.Chunker.{Host, ChunkResult, done}

-- An encoder that was given `input` has put out `output`.
pub data Fed {E : Type 0} (start : E) (push : E → List ℕ → E × List ℕ)
    : E → List ℕ → List ℕ → Type 0 where
  fresh : Fed start push start [] []
  fed :
      {e : E} {output input : List ℕ}
      → Fed start push e output input
      → (part : List ℕ) → Fed start push (push e part).0 (output ++ (push e part).1) (input ++ part)

pub record Codec : Type 1 where
  pub Encoder : Type 0
  pub start : Encoder
  pub push : Encoder → List ℕ → Encoder × List ℕ
  pub flush : Encoder → List ℕ
  pub decode : List ℕ → List ℕ
  -- decoding a finished frame gives back what was written to it
  pub round_trip :
      {e : Encoder} {output input : List ℕ}
      → Fed start push e output input
      → decode (output ++ flush e) ≡ input

-- One call of the sink: its argument and the content of the staging file.
pub record Delivery : Type 0 where
  pub result : ChunkResult
  pub content : List ℕ

abbrev pub reliable : Codec → (List ℕ → String) → Host
reliable k hash = record {
  World = List Delivery;
  Encoder = k.Encoder;
  ctx_err = λ w. none;
  create_temp = λ w. (done "chunk.tar.zst.tmp", w);
  new_writer = λ w. (done k.start, w);
  enc_write = λ e part w. ((k.push e part).0, (k.push e part).1, none, w);
  enc_close = λ e w. (k.flush e, none, w);
  file_close = λ path w. (none, w);
  remove = λ path w. w;
  hash = hash;
  sink = λ r content w. (none, w ++ record { result = r; content = content } ∷ []);
}

-- The parts of the stream that the deliveries decode to, in order.
unfoldable pub restored : (List ℕ → List ℕ) → List Delivery → List ℕ
restored decode [] = []
restored decode (x ∷ w) = decode x.content ++ restored decode w

-- The deliveries are the chunks `i`, `i + 1`, …, described as they are.
abbrev pub Numbered : (List ℕ → List ℕ) → (List ℕ → String) → ℕ → List Delivery → Type 0
Numbered decode hash i [] = Unit
Numbered decode hash i (x ∷ w) =
    (x.result.idx ≡ i)
    × (x.result.raw_bytes ≡ length (decode x.content))
    × (x.result.stored_bytes ≡ length x.content)
    × (x.result.sha256 ≡ hash x.content)
    × Numbered decode hash (suc i) w

module _ (decode : List ℕ → List ℕ) where
  pub restored-append :
      (w : List Delivery) (x : Delivery)
      → restored decode (w ++ x ∷ []) ≡ restored decode w ++ decode x.content
  unfolding restored
  restored-append [] x = rw append-nil
  restored-append (y ∷ w) x = simp (restored-append w x, append_assoc)

  pub Numbered-append :
      (hash : List ℕ → String) (i j : ℕ) (w : List Delivery) (x : Delivery)
      → Numbered decode hash i w
      → i + length w ≡ j
      → Numbered decode hash j (x ∷ [])
      → Numbered decode hash i (w ++ x ∷ [])
  Numbered-append hash i j [] x n e last = let e' : j ≡ i = omega arith in rw e' at last
  Numbered-append hash i j (y ∷ w) x n e last =
      (n.0, n.1, n.2, n.3, Numbered-append hash (suc i) j w x n.4 (omega arith) last)

-- The encoder that stores: its frame is its input.
pub identity_round_trip :
    {e : Unit {0}} {output input : List ℕ}
    → Fed {E = Unit {0}} tt (λ e part. (e, part)) e output input
    → output ++ [] ≡ input
identity_round_trip fresh = refl
identity_round_trip (fed f part) =
    rw append-nil (ap (λ t. t ++ part) (rw append-nil at (identity_round_trip f)))

abbrev pub identity_codec : Codec
identity_codec = record {
  Encoder = Unit {0};
  start = tt;
  push = λ e part. (e, part);
  flush = λ e. [];
  decode = λ bytes. bytes;
  round_trip = identity_round_trip;
}
