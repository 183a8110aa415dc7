-- ===== src/Export/Resume/Ledger.antt =====
-- The resume point of openvtld/internal/export/export.go against the ledger of uploaded chunks.
use open_vtl.Prelude.{
  ◌≢◌, not, ltb, ℕ, suc, ◌+◌, ◌≤◌, ◌<◌, ◌≡◌, refl, sym, ap, subst, ◌∙◌, Bool, true, false, ◌&&◌,
  inl, inr, Bool-cases, List, [], ◌∷◌, arith, ◌==◌, ==_iff, if◌then◌else◌, count_rows,
}
use open_vtl.Store.{ExportChunk}
use open_vtl.Store.Jobs.{of_job, ledger_rows}
use open_vtl.Store.Jobs.Ledger.{
  one, IsKeyed, Ascending, absent_below, count-ledger_rows, ledger_rows-Ascending, both,
}
use open_vtl.Export.Resume.{is_uploaded, skip_from, resume_point}

abbrev pub numbered_done : ℕ → ExportChunk → Bool
numbered_done i c = c.idx == i && is_uploaded c

-- A row that says that chunk `idx` of the job is uploaded.
abbrev pub is_done : ℕ → ℕ → ExportChunk → Bool
is_done job_id idx c = of_job job_id c && numbered_done idx c

is_number : (i : ℕ) (c : ExportChunk) → numbered_done i c ≡ true → c.idx ≡ i
is_number i c h = (==_iff c.idx i).0 (both (c.idx == i) (is_uploaded c) h).0

other_number : (a i : ℕ) (b : Bool) → a < i → one ((a == i) && b) ≡ 0
other_number a i b h = ground arith

-- From `low` on the chunks below `n` are uploaded, and the chunk `n` is not.
pub record IsPoint (low : ℕ) (cs : List ExportChunk) (n : ℕ) : Type 0 where
  pub above : low ≤ n
  pub uploaded : (i : ℕ) → low ≤ i → i < n → count_rows (numbered_done i) cs ≡ 1
  pub next : count_rows (numbered_done n) cs ≡ 0

above_low : (i low : ℕ) → low ≤ i → (i == low) ≡ false → low < i
above_low i low h e = ground arith

-- The chunk `low` is uploaded, and the others go on from the next.
IsPoint-cons :
    (low n : ℕ) (c : ExportChunk) (cs : List ExportChunk)
    → Ascending (suc c.idx) cs
    → numbered_done low c ≡ true
    → IsPoint (low + 1) cs n
    → IsPoint low (c ∷ cs) n
unfolding count_rows
IsPoint-cons low n c cs a here p =
    let at_low : c.idx ≡ low = is_number low c here in
    record {
      above = omega (arith, p.above);
      uploaded = λ i from_low below. elim (Bool-cases (i == low)) [
        | inl is_low ↦
            let same : i ≡ low = (==_iff i low).0 is_low in
            let absent =
              absent_below (numbered_done i) i (suc c.idx) cs (is_number i) a
                (omega (arith, same, at_low)) in
            let hit : one (numbered_done i c) ≡ 1 =
              ap one (ap (λ k. numbered_done k c) same ∙ here) in
            omega (arith, absent, hit)
        | inr other ↦
            let later : low < i = above_low i low from_low other in
            omega (
              arith,
              other_number c.idx i (is_uploaded c) (omega (arith, at_low, later)),
              p.uploaded i (omega (arith, later)) below,
            )
      ];
      next =
          omega
            (arith, p.next, other_number c.idx n (is_uploaded c) (omega (arith, at_low, p.above)));
    }

IsPoint-here :
    (low : ℕ) (cs : List ExportChunk) → count_rows (numbered_done low) cs ≡ 0 → IsPoint low cs low
IsPoint-here low cs absent = record { above = omega arith; uploaded = empty low; next = absent }
  where
    empty : (low i : ℕ) → low ≤ i → i < low → count_rows (numbered_done i) cs ≡ 1
    empty low i l h = absurd (omega arith)

skip_from_lem :
    (low : ℕ) (cs : List ExportChunk) → Ascending low cs → IsPoint low cs (skip_from low cs)
unfolding skip_from Ascending count_rows
skip_from_lem low [] a = IsPoint-here low [] refl
skip_from_lem low (c ∷ cs) (l, a) = elim (Bool-cases (numbered_done low c)) [
  | inl here ↦
      let rest =
        skip_from_lem (low + 1) cs
          (subst (λ k. Ascending k cs) (omega (arith, is_number low c here)) a) in
      subst (IsPoint low (c ∷ cs)) (sym (rw here))
        (IsPoint-cons low (skip_from (low + 1) cs) c cs a here rest)
  | inr stop ↦
      let absent =
        absent_below (numbered_done low) low (suc c.idx) cs (is_number low) a (omega (arith, l)) in
      subst (IsPoint low (c ∷ cs)) (sym (rw stop))
        (IsPoint-here low (c ∷ cs) (omega (arith, ap one stop, absent)))
]

point_below : (n : ℕ) (same : Bool) → (if ltb 0 n && not same then 0 else n) ≤ n
point_below n same = ground arith

point_same : (n : ℕ) (same : Bool) → same ≡ true → (if ltb 0 n && not same then 0 else n) ≡ n
point_same n same h = ground arith

point_other : (n : ℕ) (same : Bool) → same ≡ false → (if ltb 0 n && not same then 0 else n) ≡ 0
point_other n same h = ground arith

-- If the ledger has at most one row for a chunk of a job, then a resumed export skips the chunks below
-- its resume point, each of which has one row that says that it is uploaded. If the job's total of bytes
-- is the sum of the sizes of the cart's files, no row says so of the chunk at that point; if it is not, the
-- point is 0.
pub resume_point_lem :
    (job_id bytes_total sum_bytes : ℕ) (rows : List ExportChunk)
    → IsKeyed rows
    → let k = resume_point bytes_total sum_bytes (ledger_rows job_id rows) in
      ((i : ℕ) → i < k → count_rows (is_done job_id i) rows ≡ 1)
      × (bytes_total ≡ sum_bytes → count_rows (is_done job_id k) rows ≡ 0)
      × (bytes_total ≢ sum_bytes → k ≡ 0)
unfolding resume_point
resume_point_lem job_id bytes_total sum_bytes rows keyed =
    let n = skip_from 0 (ledger_rows job_id rows) in
    let same = bytes_total == sum_bytes in
    let p = skip_from_lem 0 (ledger_rows job_id rows) (ledger_rows-Ascending job_id rows keyed) in
    let in_table = λ (i : ℕ). sym (count-ledger_rows (numbered_done i) job_id rows) in
    (
      λ i below. in_table i ∙ p.uploaded i (omega arith) (omega (arith, below, point_below n same)),
      λ e.
          subst (λ m. count_rows (is_done job_id m) rows ≡ 0)
            (sym (point_same n same ((==_iff bytes_total sum_bytes).1 e))) (in_table n ∙ p.next),
      λ apart. point_other n same (ground (arith, apart)),
    )
