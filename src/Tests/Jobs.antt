-- ===== src/Tests/Jobs.antt =====
-- Runs of the job store and of the resume point at concrete inputs (openvtld/internal/store/jobs.go).
use open_vtl.Prelude.{
  ℕ, ◌<◌, ◌≡◌, ◌≢◌, refl, ◌⊎◌, some, List, [], arith, count_rows, update_rows, remove_rows,
}
use open_vtl.Exec.{ok}
use open_vtl.Store.{ExportChunk, Server}
use open_vtl.Store.Jobs.{upsert_chunk, insert_by_idx, sort_by_idx, ledger_rows, record_chunk}
use open_vtl.Store.Jobs.Ledger.{IsKeyed, upsert_chunk-IsKeyed}
use open_vtl.Export.Resume.{skip_from, resume_point}
use open_vtl.Export.Resume.Ledger.{is_done, resume_point_lem}
use open_vtl.Export.Resume.Recorded.{IsRecorded, record_chunk_lem}
use open_vtl.Tests.Api.{calm, running}

abbrev chunk : ℕ → ExportChunk
chunk idx = record {
  job_id = 1;
  idx = idx;
  s3_key = "key";
  raw_bytes = 10;
  stored_bytes = 5;
  sha256 = "00";
  uploaded_at = some 1;
}

-- Chunk 1 of the job arrived before chunk 0, and chunk 3 before chunk 2.
abbrev rows : List ExportChunk
rows = upsert_chunk (chunk 3) (upsert_chunk (chunk 0) (upsert_chunk (chunk 1) []))

empty-IsKeyed : IsKeyed []
unfolding count_rows
empty-IsKeyed = record { at_most_once = λ j i. omega arith }

rows-IsKeyed : IsKeyed rows
rows-IsKeyed = upsert_chunk-IsKeyed (chunk 3) (upsert_chunk (chunk 0) (upsert_chunk (chunk 1) [])) (
    upsert_chunk-IsKeyed (chunk 0) (upsert_chunk (chunk 1) [])
      (upsert_chunk-IsKeyed (chunk 1) [] empty-IsKeyed))

resumes_at_two : resume_point 40 40 (ledger_rows 1 rows) ≡ 2
unfolding resume_point skip_from ledger_rows sort_by_idx insert_by_idx upsert_chunk remove_rows
    count_rows update_rows
resumes_at_two = refl

abbrev job_bytes : ℕ
job_bytes = 40

resume_point_lem_example :
    ((i : ℕ)
      → i < resume_point job_bytes 40 (ledger_rows 1 rows)
      → count_rows (is_done 1 i) rows ≡ 1)
    × (job_bytes ≡ 40
        → count_rows (is_done 1 (resume_point job_bytes 40 (ledger_rows 1 rows))) rows ≡ 0)
    × (job_bytes ≢ 40 → resume_point job_bytes 40 (ledger_rows 1 rows) ≡ 0)
resume_point_lem_example = resume_point_lem 1 job_bytes 40 rows rows-IsKeyed

abbrev exporting : Server calm
exporting = record running { db = record running.db { export_chunks = rows } }

record_chunk_lem_example :
    (((record_chunk calm (chunk 2) exporting).0 ≢ ok tt)
      × ((record_chunk calm (chunk 2) exporting).1.db ≡ exporting.db))
    ⊎ (((record_chunk calm (chunk 2) exporting).0 ≡ ok tt)
        × IsRecorded (chunk 2) rows (record_chunk calm (chunk 2) exporting).1.db.export_chunks)
record_chunk_lem_example = record_chunk_lem calm (chunk 2) exporting rows-IsKeyed
