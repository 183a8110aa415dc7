-- ===== src/Store/Jobs.antt =====
-- openvtld/internal/store/jobs.go: the jobs, their events and the ledger of uploaded chunks.
pub mod Ledger
pub mod Transition
use Prim.Native.String.{◌++◌ as str_append}
use open_vtl.Prelude.{
  ℕ, ◌+◌, String, str_eq, Bool, true, false, not, ◌&&◌, ◌||◌, Option, none, some, List, [], ◌∷◌,
  ◌++◌, ltb, leb, ◌==◌, if◌then◌else◌, find, remove_rows, update_rows, count_rows, take,
}
use open_vtl.Exec.{Result, ok, err, Exec, ◌>>=◌, ◌>>◌, pure, or_exit}
use open_vtl.Store.{
  Env, SqlError, engine, not_found, Job, JobEvent, ExportChunk, Tables, Server, sql, query, now,
}

abbrev pub has_job_id : ℕ → Job → Bool
has_job_id id j = j.id == id

-- 'done', 'failed' and 'cancelled'
unfoldable pub is_terminal : String → Bool
is_terminal state = str_eq state "done" || str_eq state "failed" || str_eq state "cancelled"

unfoldable pub change_job : (Job → Job) → ℕ → Tables → Result SqlError (Unit {0}) × Tables
change_job change id db = (ok tt, record db { jobs = update_rows (has_job_id id) change db.jobs })

unfoldable pub insert_event : (ℕ → JobEvent) → Tables → Result SqlError (Unit {0}) × Tables
insert_event row db = (
  ok tt,
  record db {
    job_events = db.job_events ++ row db.next_event ∷ [];
    next_event = db.next_event + 1;
  },
)

unfoldable pub insert_job : (ℕ → Job) → Tables → Result SqlError ℕ × Tables
insert_job row db = (
  ok db.next_job,
  record db { jobs = db.jobs ++ row db.next_job ∷ []; next_job = db.next_job + 1 },
)

-- The state and the times that a transition writes.
unfoldable pub moved : String → ℕ → Job → Job
unfolding is_terminal
moved to ts j =
    if is_terminal to
    then record j { state = to; updated_at = ts; finished_at = some ts }
    else record j { state = to; updated_at = ts }

is_pipeline_kind : String → Bool
is_pipeline_kind kind = str_eq kind "export" || str_eq kind "import" || str_eq kind "evict"

select : {A : Type 0} → (A → Bool) → List A → List A
select test xs = remove_rows (λ x. not (test x)) xs

newest_first : {A : Type 0} → List A → List A → List A
newest_first [] acc = acc
newest_first (x ∷ xs) acc = newest_first xs (x ∷ acc)

-- The key of the ledger.
abbrev pub has_key : ℕ → ℕ → ExportChunk → Bool
has_key job_id idx c = c.job_id == job_id && c.idx == idx

-- INSERT … ON CONFLICT(job_id, idx) DO UPDATE
unfoldable pub upsert_chunk : ExportChunk → List ExportChunk → List ExportChunk
upsert_chunk c rows =
    if ltb 0 (count_rows (has_key c.job_id c.idx) rows)
    then update_rows (has_key c.job_id c.idx) (λ old. c) rows
    else rows ++ c ∷ []

abbrev pub of_job : ℕ → ExportChunk → Bool
of_job job_id c = c.job_id == job_id

unfoldable pub insert_by_idx : ExportChunk → List ExportChunk → List ExportChunk
insert_by_idx c [] = c ∷ []
insert_by_idx c (d ∷ ds) =
    let rest = insert_by_idx c ds in if leb c.idx d.idx then c ∷ d ∷ ds else d ∷ rest

unfoldable pub sort_by_idx : List ExportChunk → List ExportChunk
unfolding insert_by_idx
sort_by_idx [] = []
sort_by_idx (c ∷ cs) = insert_by_idx c (sort_by_idx cs)

-- SELECT … WHERE job_id=? ORDER BY idx
unfoldable pub ledger_rows : ℕ → List ExportChunk → List ExportChunk
unfolding sort_by_idx
ledger_rows job_id rows = sort_by_idx (remove_rows (λ c. not (of_job job_id c)) rows)

module _ (env : Env) where
  unfoldable pub get_job : ℕ → Exec (Server env) SqlError Job
  get_job id = do row ← query env (λ db. find (has_job_id id) db.jobs); or_exit not_found row

  -- The row and its event are two statements; the second may fail and leave a job without one.
  unfoldable pub create_job :
      String → String → Option ℕ → String → String → String → Exec (Server env) SqlError Job
  create_job kind label remote_id generation state trigger = do
    ts ← now env
    id ← sql env (
        insert_job (λ id. record {
          id = id;
          kind = kind;
          cart_label = label;
          remote_id = remote_id;
          generation = generation;
          state = state;
          trigger = trigger;
          bytes_total = 0;
          bytes_done = 0;
          chunks_total = 0;
          chunks_done = 0;
          error = "";
          created_at = ts;
          updated_at = ts;
          finished_at = none;
          system_name = "";
          target_library = none;
        }))
    sql env (
        insert_event (λ e. record {
          id = e;
          job_id = id;
          ts = ts;
          from_state = "";
          to_state = state;
          detail = str_append "job created (" (str_append trigger ")");
        }))
    get_job id

  -- A write to one job, stamped with the time.
  stamp : (ℕ → Job → Job) → ℕ → Exec (Server env) SqlError (Unit {0})
  stamp change id = do ts ← now env; sql env (change_job (change ts) id)

  unfoldable pub set_job_import_target : ℕ → String → ℕ → Exec (Server env) SqlError (Unit {0})
  unfolding stamp
  set_job_import_target id system_name library =
      stamp
        (λ ts j. record j {
          system_name = system_name;
          target_library = some library;
          updated_at = ts;
        })
        id

  unfoldable pub set_job_error : ℕ → String → Exec (Server env) SqlError (Unit {0})
  unfolding stamp
  set_job_error id msg = stamp (λ ts j. record j { error = msg; updated_at = ts }) id

  unfoldable pub set_job_generation : ℕ → String → Exec (Server env) SqlError (Unit {0})
  unfolding stamp
  set_job_generation id generation =
      stamp (λ ts j. record j { generation = generation; updated_at = ts }) id

  unfoldable pub set_job_totals : ℕ → ℕ → ℕ → Exec (Server env) SqlError (Unit {0})
  unfolding stamp
  set_job_totals id bytes chunks =
      stamp (λ ts j. record j { bytes_total = bytes; chunks_total = chunks; updated_at = ts }) id

  unfoldable pub set_job_progress : ℕ → ℕ → ℕ → Exec (Server env) SqlError (Unit {0})
  unfolding stamp
  set_job_progress id bytes chunks =
      stamp (λ ts j. record j { bytes_done = bytes; chunks_done = chunks; updated_at = ts }) id

  unfoldable pub list_jobs : ℕ → Exec (Server env) SqlError (List Job)
  unfolding newest_first
  list_jobs limit = query env (λ db. take limit (newest_first db.jobs []))

  -- The resume queue of the export pipeline, oldest first.
  unfoldable pub unfinished_jobs : Exec (Server env) SqlError (List Job)
  unfolding select is_pipeline_kind is_terminal
  unfinished_jobs =
      query env (λ db. select (λ j. not (is_terminal j.state) && is_pipeline_kind j.kind) db.jobs)

  -- The number of jobs that it failed; no event is recorded for them.
  unfoldable pub fail_interrupted_jobs : String → String → Exec (Server env) SqlError ℕ
  unfolding is_terminal
  fail_interrupted_jobs kind detail = do
    ts ← now env
    sql env (λ db.
        let open_job : Job → Bool = λ j. str_eq j.kind kind && not (is_terminal j.state) in
        (
          ok (count_rows open_job db.jobs),
          record db {
            jobs =
                update_rows open_job
                  (λ j. record j {
                    state = "failed";
                    error = detail;
                    updated_at = ts;
                    finished_at = some ts;
                  })
                  db.jobs;
          },
        ))

  unfoldable pub rolled_back :
      {A : Type 0} → Tables → Result SqlError A × Server env → Result SqlError A × Server env
  rolled_back before (ok a, s) = (ok a, s)
  rolled_back before (err e, s) = (err e, record s { db = before })

  -- BeginTx, the statements, Commit.
  unfoldable pub in_transaction :
      {A : Type 0} → Exec (Server env) SqlError A → Exec (Server env) SqlError A
  in_transaction body = do query env (λ db. tt); a ← body; query env (λ db. tt); pure a

  -- An error at any of them rolls back what the others did.
  unfoldable pub transaction :
      {A : Type 0} → Exec (Server env) SqlError A → Exec (Server env) SqlError A
  unfolding rolled_back in_transaction
  transaction body s = rolled_back s.db (in_transaction body s)

  unfoldable pub transition_job :
      ℕ → String → String → String → Exec (Server env) SqlError (Unit {0})
  unfolding transaction
  transition_job id from to detail = do
    ts ← now env
    transaction (do
      sql env (change_job (moved to ts) id)
      sql env (
          insert_event (λ e. record {
            id = e;
            job_id = id;
            ts = ts;
            from_state = from;
            to_state = to;
            detail = detail;
          })))

  unfoldable pub job_events_of : ℕ → Exec (Server env) SqlError (List JobEvent)
  unfolding select
  job_events_of id = query env (λ db. select (λ e. e.job_id == id) db.job_events)

  -- The row is stamped with the time, whatever the caller put there.
  unfoldable pub record_chunk : ExportChunk → Exec (Server env) SqlError (Unit {0})
  record_chunk c = do
    ts ← now env
    sql env (λ db. (
      ok tt,
      record db {
        export_chunks = upsert_chunk (record c { uploaded_at = some ts }) db.export_chunks;
      },
    ))

  unfoldable pub clear_chunks : ℕ → Exec (Server env) SqlError (Unit {0})
  clear_chunks job_id =
      sql env
        (λ db. (ok tt, record db { export_chunks = remove_rows (of_job job_id) db.export_chunks }))

  unfoldable pub chunks_for_job : ℕ → Exec (Server env) SqlError (List ExportChunk)
  chunks_for_job job_id = query env (λ db. ledger_rows job_id db.export_chunks)
