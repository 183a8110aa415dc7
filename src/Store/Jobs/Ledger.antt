-- ===== src/Store/Jobs/Ledger.antt =====
-- The keys and the order of the chunk ledger of openvtld/internal/store/jobs.go.
use open_vtl.Prelude.{
  ℕ, suc, ◌+◌, ◌≤◌, ◌<◌, ◌≡◌, refl, sym, ap, ◌∙◌, Bool, true, false, not, ◌&&◌, inl, inr,
  Bool-cases, List, [], ◌∷◌, ◌++◌, arith, ltb, leb, false_is_not_true, ◌==◌, ==_iff, if◌then◌else◌,
  remove_rows, update_rows, count_rows,
}
use open_vtl.Store.{ExportChunk}
use open_vtl.Store.Jobs.{has_key, upsert_chunk, of_job, insert_by_idx, sort_by_idx, ledger_rows}

abbrev pub one : Bool → ℕ
one b = if b then 1 else 0

-- UNIQUE(job_id, idx)
pub record IsKeyed (rows : List ExportChunk) : Type 0 where
  pub at_most_once : (job_id idx : ℕ) → count_rows (has_key job_id idx) rows ≤ 1

pub count-append :
    (test : ExportChunk → Bool) (rows : List ExportChunk) (c : ExportChunk)
    → count_rows test (rows ++ c ∷ []) ≡ count_rows test rows + one (test c)
unfolding count_rows
count-append test [] c = omega arith
count-append test (d ∷ rows) c = omega (arith, count-append test rows c)

-- An update that keeps the keys keeps their counts.
count-update :
    (c : ExportChunk) (job_id idx : ℕ) (rows : List ExportChunk)
    → count_rows (has_key job_id idx) (update_rows (has_key c.job_id c.idx) (λ old. c) rows)
      ≡ count_rows (has_key job_id idx) rows
unfolding count_rows update_rows
count-update c job_id idx [] = refl
count-update c job_id idx (d ∷ rows) =
    let again = count-update c job_id idx rows in ground (arith, again)

found_none :
    (test : ExportChunk → Bool) (rows : List ExportChunk)
    → ltb 0 (count_rows test rows) ≡ false
    → count_rows test rows ≡ 0
found_none test rows h = ground arith

pub both : (a b : Bool) → (a && b) ≡ true → (a ≡ true) × (b ≡ true)
both true true h = (refl, refl)
both true false h = false_is_not_true h
both false b h = false_is_not_true h

-- A key that is not in the table is there once after the row is appended.
append-key :
    (c : ExportChunk) (rows : List ExportChunk) (j i : ℕ)
    → count_rows (has_key c.job_id c.idx) rows ≡ 0
    → count_rows (has_key j i) rows ≤ 1
    → count_rows (has_key j i) (rows ++ c ∷ []) ≤ 1
append-key c rows j i absent below = elim (Bool-cases (has_key j i c)) [
  | inl same ↦
      let e = both (c.job_id == j) (c.idx == i) same in
      let there : count_rows (has_key j i) rows ≡ 0 =
        sym (rw ((==_iff c.job_id j).0 e.0, (==_iff c.idx i).0 e.1)) ∙ absent in
      omega (arith, count-append (has_key j i) rows c, ap one same, there)
  | inr other ↦ omega (arith, count-append (has_key j i) rows c, ap one other, below)
]

pub upsert_chunk-IsKeyed :
    (c : ExportChunk) (rows : List ExportChunk) → IsKeyed rows → IsKeyed (upsert_chunk c rows)
unfolding upsert_chunk
upsert_chunk-IsKeyed c rows keyed = record {
  at_most_once = λ j i. elim (Bool-cases (ltb 0 (count_rows (has_key c.job_id c.idx) rows))) [
    | inl there ↦ rw there (omega (arith, count-update c j i rows, keyed.at_most_once j i))
    | inr absent ↦ rw absent (
        append-key c rows j i (found_none (has_key c.job_id c.idx) rows absent)
          (keyed.at_most_once j i))
  ];
}

-- The rows' numbers ascend from `low`.
unfoldable pub Ascending : ℕ → List ExportChunk → Type 0
Ascending low [] = Unit {0}
Ascending low (c ∷ cs) = (low ≤ c.idx) × Ascending (suc c.idx) cs

abbrev pub has_idx : ℕ → ExportChunk → Bool
has_idx i c = c.idx == i

pub absent_below :
    (test : ExportChunk → Bool) (i : ℕ) (low : ℕ) (cs : List ExportChunk)
    → ((c : ExportChunk) → test c ≡ true → c.idx ≡ i)
    → Ascending low cs
    → i < low
    → count_rows test cs ≡ 0
unfolding Ascending count_rows
absent_below test i low [] is_i a h = refl
absent_below test i low (c ∷ cs) is_i (l, a) h = elim (Bool-cases (test c)) [
  | inl hit ↦ absurd (omega (arith, is_i c hit))
  | inr miss ↦
      let rest = absent_below test i (suc c.idx) cs is_i a (omega arith) in
      omega (arith, ap one miss, rest)
]

count-insert_by_idx :
    (test : ExportChunk → Bool) (c : ExportChunk) (cs : List ExportChunk)
    → count_rows test (insert_by_idx c cs) ≡ one (test c) + count_rows test cs
unfolding insert_by_idx count_rows
count-insert_by_idx test c [] = refl
count-insert_by_idx test c (d ∷ cs) = elim (Bool-cases (leb c.idx d.idx)) [
  | inl before ↦ rw before
  | inr after ↦ rw after (omega (arith, count-insert_by_idx test c cs))
]

count-sort_by_idx :
    (test : ExportChunk → Bool) (cs : List ExportChunk)
    → count_rows test (sort_by_idx cs) ≡ count_rows test cs
unfolding sort_by_idx count_rows
count-sort_by_idx test [] = refl
count-sort_by_idx test (c ∷ cs) =
    omega (arith, count-insert_by_idx test c (sort_by_idx cs), count-sort_by_idx test cs)

insert-Ascending :
    (c : ExportChunk) (low : ℕ) (cs : List ExportChunk)
    → Ascending low cs
    → low ≤ c.idx
    → count_rows (has_idx c.idx) cs ≡ 0
    → Ascending low (insert_by_idx c cs)
unfolding insert_by_idx Ascending count_rows
insert-Ascending c low [] a l absent = (l, tt)
insert-Ascending c low (d ∷ cs) (m, a) l absent = elim (Bool-cases (d.idx == c.idx)) [
  | inl same ↦ absurd (omega (arith, absent, ap one same))
  | inr differ ↦ elim (Bool-cases (leb c.idx d.idx)) [
    | inl before ↦ rw before (l, (less c.idx d.idx before differ, a))
    | inr after ↦ rw after (
      m,
      insert-Ascending c (suc d.idx) cs a (more c.idx d.idx after)
          (omega (arith, absent, ap one differ)),
    )
  ]
]
  where
    less : (a b : ℕ) → leb a b ≡ true → (b == a) ≡ false → a < b
    less a b h e = ground arith

    more : (a b : ℕ) → leb a b ≡ false → b < a
    more a b h = ground arith

sort-Ascending :
    (cs : List ExportChunk)
    → ((i : ℕ) → count_rows (has_idx i) cs ≤ 1)
    → Ascending 0 (sort_by_idx cs)
unfolding sort_by_idx Ascending count_rows
sort-Ascending [] once = tt
sort-Ascending (c ∷ cs) once =
    insert-Ascending c 0 (sort_by_idx cs) (sort-Ascending cs (λ i. omega (arith, once i)))
      (omega arith)
      (omega (arith, count-sort_by_idx (has_idx c.idx) cs, once c.idx, ap one (self c.idx)))
  where
    self : (i : ℕ) → (i == i) ≡ true
    self i = ground arith

-- Among the rows that are kept, a test counts those that pass both.
count-select :
    (test keep : ExportChunk → Bool) (rows : List ExportChunk)
    → count_rows test (remove_rows (λ c. not (keep c)) rows)
      ≡ count_rows (λ c. keep c && test c) rows
unfolding count_rows remove_rows
count-select test keep [] = refl
count-select test keep (c ∷ rows) =
    let rest = count-select test keep rows in
    elim (Bool-cases (keep c)) [
      | inl kept ↦ rw kept (omega (arith, rest))
      | inr dropped ↦ rw dropped (omega (arith, rest))
    ]

-- What the ledger of a job counts, the table counts among the rows of the job.
pub count-ledger_rows :
    (test : ExportChunk → Bool) (job_id : ℕ) (rows : List ExportChunk)
    → count_rows test (ledger_rows job_id rows) ≡ count_rows (λ c. of_job job_id c && test c) rows
unfolding ledger_rows
count-ledger_rows test job_id rows =
    count-sort_by_idx test (remove_rows (λ c. not (of_job job_id c)) rows)
    ∙ count-select test (of_job job_id) rows

pub ledger_rows-Ascending :
    (job_id : ℕ) (rows : List ExportChunk) → IsKeyed rows → Ascending 0 (ledger_rows job_id rows)
unfolding ledger_rows
ledger_rows-Ascending job_id rows keyed =
    sort-Ascending (remove_rows (λ c. not (of_job job_id c)) rows) (λ i.
      omega (arith, count-select (has_idx i) (of_job job_id) rows, keyed.at_most_once job_id i))
