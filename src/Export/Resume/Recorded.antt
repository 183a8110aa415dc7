-- ===== src/Export/Resume/Recorded.antt =====
-- RecordChunk of openvtld/internal/store/jobs.go, on the count of uploaded chunks.
use open_vtl.Prelude.{
  subst, ltb→lt, ℕ, ◌≤◌, ◌≡◌, ◌≢◌, refl, sym, ap, ◌∙◌, Bool, true, false, ◌&&◌, ◌⊎◌, inl, inr,
  Bool-cases, some, List, [], ◌∷◌, arith, ltb, ◌==◌, ==_iff, count_rows, update_rows,
  false_is_not_true,
}
use open_vtl.Exec.{Result, ok, err}
use open_vtl.Exec.Triple.{Triple, Ends, triple_bind, triple_weaken}
use open_vtl.Store.{Env, SqlError, ExportChunk, Tables, Server}
use open_vtl.Store.Snapshot.{Holds, sql_step, now-Holds}
use open_vtl.Store.Jobs.{has_key, upsert_chunk, record_chunk}
use open_vtl.Store.Jobs.Ledger.{one, both, count-append, IsKeyed, upsert_chunk-IsKeyed}
use open_vtl.Store.Jobs.Transition.{not_ok}
use open_vtl.Export.Resume.{is_uploaded}
use open_vtl.Export.Resume.Ledger.{is_done}

module _ (test key : ExportChunk → Bool) (c : ExportChunk) where
  -- Rows that pass have the key, and the new row passes.
  count-replaced :
      (rows : List ExportChunk)
      → ((d : ExportChunk) → test d ≡ true → key d ≡ true)
      → test c ≡ true
      → count_rows test (update_rows key (λ old. c) rows) ≡ count_rows key rows
  unfolding count_rows update_rows
  count-replaced [] within passes = refl
  count-replaced (d ∷ rows) within passes =
      let rest = count-replaced rows within passes in
      elim (Bool-cases (key d)) [
        | inl hit ↦ rw (hit, passes) (omega (arith, rest))
        | inr miss ↦ elim (Bool-cases (test d)) [
          | inl odd ↦ false_is_not_true (sym miss ∙ within d odd)
          | inr other ↦ rw (miss, other) (omega (arith, rest))
        ]
      ]

  -- Rows that pass have another key, and the new row does not pass.
  count-untouched :
      (rows : List ExportChunk)
      → ((d : ExportChunk) → key d ≡ true → test d ≡ false)
      → test c ≡ false
      → count_rows test (update_rows key (λ old. c) rows) ≡ count_rows test rows
  unfolding count_rows update_rows
  count-untouched [] apart fails = refl
  count-untouched (d ∷ rows) apart fails =
      let rest = count-untouched rows apart fails in
      elim (Bool-cases (key d)) [
        | inl hit ↦ rw hit (omega (arith, rest, ap one fails, ap one (apart d hit)))
        | inr miss ↦ rw miss (omega (arith, rest))
      ]

  count-within :
      (rows : List ExportChunk)
      → ((d : ExportChunk) → test d ≡ true → key d ≡ true)
      → count_rows test rows ≤ count_rows key rows
  unfolding count_rows
  count-within [] within = omega arith
  count-within (d ∷ rows) within =
      let rest = count-within rows within in
      elim (Bool-cases (test d)) [
        | inl hit ↦ omega (arith, rest, ap one hit, ap one (within d hit))
        | inr miss ↦ omega (arith, rest, ap one miss)
      ]

done_has_key : (j i : ℕ) (d : ExportChunk) → is_done j i d ≡ true → has_key j i d ≡ true
done_has_key j i d h = three (d.job_id == j) (d.idx == i) (is_uploaded d) h
  where
    three : (a b u : Bool) → (a && (b && u)) ≡ true → (a && b) ≡ true
    three true true u h = refl
    three true false u h = h
    three false b u h = h

key_of : (j i : ℕ) (d : ExportChunk) → has_key j i d ≡ true → (d.job_id ≡ j) × (d.idx ≡ i)
key_of j i d h =
    let e = both (d.job_id == j) (d.idx == i) h in
    ((==_iff d.job_id j).0 e.0, (==_iff d.idx i).0 e.1)

-- A row is under one key only.
other_key :
    (c d : ExportChunk) (j i : ℕ)
    → (c.job_id ≢ j) ⊎ (c.idx ≢ i)
    → has_key c.job_id c.idx d ≡ true
    → is_done j i d ≡ false
other_key c d j i differ h = elim (Bool-cases (is_done j i d)) [
  | inr no_hit ↦ no_hit
  | inl hit ↦
      let a = key_of c.job_id c.idx d h in
      let b = key_of j i d (done_has_key j i d hit) in
      absurd (apart differ (sym a.0 ∙ b.0) (sym a.1 ∙ b.1))
]
  where
    apart : (c.job_id ≢ j) ⊎ (c.idx ≢ i) → c.job_id ≡ j → c.idx ≢ i
    apart (inl f) p q = f p
    apart (inr f) p q = f q

self_key : (c : ExportChunk) → has_key c.job_id c.idx c ≡ true
self_key c = both_true (self c.job_id) (self c.idx)
  where
    self : (a : ℕ) → (a == a) ≡ true
    self a = ground arith

    both_true : {a b : Bool} → a ≡ true → b ≡ true → (a && b) ≡ true
    both_true p q = rw (p, q)

self_done : (c : ExportChunk) → is_uploaded c ≡ true → is_done c.job_id c.idx c ≡ true
self_done c u =
    let e = both (c.job_id == c.job_id) (c.idx == c.idx) (self_key c) in rw (e.0, e.1, u)

-- A row that says "uploaded", put into the ledger.
upsert_done :
    (c : ExportChunk) (rows : List ExportChunk)
    → IsKeyed rows
    → is_uploaded c ≡ true
    → count_rows (is_done c.job_id c.idx) (upsert_chunk c rows) ≡ 1
unfolding upsert_chunk
upsert_done c rows keyed uploaded =
    elim (Bool-cases (ltb 0 (count_rows (has_key c.job_id c.idx) rows))) [
      | inl there ↦ rw there (
          omega (
            arith,
            count-replaced (is_done c.job_id c.idx) (has_key c.job_id c.idx) c rows
                (done_has_key c.job_id c.idx) (self_done c uploaded),
            ltb→lt 0 (count_rows (has_key c.job_id c.idx) rows) there,
            keyed.at_most_once c.job_id c.idx,
          ))
      | inr absent ↦ rw absent (
          omega (
            arith,
            count-append (is_done c.job_id c.idx) rows c,
            ap one (self_done c uploaded),
            count-within (is_done c.job_id c.idx) (has_key c.job_id c.idx) c rows
                (done_has_key c.job_id c.idx),
            none_of (count_rows (has_key c.job_id c.idx) rows) absent,
          ))
    ]
  where
    none_of : (n : ℕ) → ltb 0 n ≡ false → n ≡ 0
    none_of n h = ground arith

upsert_others :
    (c : ExportChunk) (rows : List ExportChunk) (j i : ℕ)
    → (c.job_id ≢ j) ⊎ (c.idx ≢ i)
    → count_rows (is_done j i) (upsert_chunk c rows) ≡ count_rows (is_done j i) rows
unfolding upsert_chunk
upsert_others c rows j i differ =
    let fails = other_key c c j i differ (self_key c) in
    elim (Bool-cases (ltb 0 (count_rows (has_key c.job_id c.idx) rows))) [
      | inl there ↦ rw there (
          count-untouched (is_done j i) (has_key c.job_id c.idx) c rows
            (λ d h. other_key c d j i differ h) fails)
      | inr absent ↦ rw absent (omega (arith, count-append (is_done j i) rows c, ap one fails))
    ]

-- What RecordChunk does to the ledger: the chunk counts as uploaded, the others as before.
pub record IsRecorded (c : ExportChunk) (before after : List ExportChunk) : Type 0 where
  pub keyed : IsKeyed after
  pub recorded : count_rows (is_done c.job_id c.idx) after ≡ 1
  pub others :
      (j i : ℕ)
      → (c.job_id ≢ j) ⊎ (c.idx ≢ i)
      → count_rows (is_done j i) after ≡ count_rows (is_done j i) before

-- On a ledger with at most one row for a chunk of a job, RecordChunk either fails and leaves the
-- database as it was, or the chunk counts as uploaded once, every other as before, and there is
-- still at most one row for a chunk.
pub record_chunk_lem :
    (env : Env) (c : ExportChunk) (s : Server env)
    → IsKeyed s.db.export_chunks
    → (((record_chunk env c s).0 ≢ ok tt) × ((record_chunk env c s).1.db ≡ s.db))
      ⊎ (((record_chunk env c s).0 ≡ ok tt)
          × IsRecorded c s.db.export_chunks (record_chunk env c s).1.db.export_chunks)
unfolding record_chunk
record_chunk_lem env c s keyed = go (record_chunk env c s) (records.at s (record { same = refl }))
  where
    IsDone : Server env → Type 0
    IsDone s' = IsRecorded c s.db.export_chunks s'.db.export_chunks

    stamped : ℕ → ExportChunk
    stamped ts = record c { uploaded_at = some ts }

    with_row : ℕ → Tables
    with_row ts = record s.db { export_chunks = upsert_chunk (stamped ts) s.db.export_chunks }

    result :
        (ts : ℕ) → IsRecorded c s.db.export_chunks (upsert_chunk (stamped ts) s.db.export_chunks)
    result ts = record {
      keyed = upsert_chunk-IsKeyed (stamped ts) s.db.export_chunks keyed;
      recorded = upsert_done (stamped ts) s.db.export_chunks keyed refl;
      others = λ j i differ. upsert_others (stamped ts) s.db.export_chunks j i differ;
    }

    records : Triple (Holds env s.db) (record_chunk env c) (λ _. IsDone) (λ _. Holds env s.db)
    records = triple_bind (now-Holds env s.db) (λ ts.
        triple_weaken (λ s k. k)
          (λ a s' k.
            subst (λ t. IsRecorded c s.db.export_chunks t.export_chunks) (sym k.same) (result ts))
          (λ e s k. k) (sql_step env s.db _ tt (with_row ts) refl))

    go :
        (r : Result SqlError (Unit {0}) × Server env)
        → Ends (λ _. IsDone) (λ _. Holds env s.db) r
        → ((r.0 ≢ ok tt) × (r.1.db ≡ s.db)) ⊎ ((r.0 ≡ ok tt) × IsDone r.1)
    go (ok a, s') h = inr (refl, h)
    go (err e, s') h = inl (not_ok e tt, h.same)
