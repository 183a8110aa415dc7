-- ===== src/Store/Jobs/Transition.antt =====
-- TransitionJob of openvtld/internal/store/jobs.go as one transaction.
use open_vtl.Prelude.{
  List, str_eq, ◌||◌, ◌==◌, if◌then◌else◌, some, ℕ, ◌+◌, ◌≢◌, String, [], ◌∷◌, ◌++◌,
}
use open_vtl.Exec.{ok, err, Exec}
use open_vtl.Exec.Triple.{Triple}
use open_vtl.Store.{SqlError, Job, JobEvent, Tables}

-- The job in the state `to`, with the second `ts` as its last change, and as its end in a final state.
abbrev pub arrived : String → ℕ → Job → Job
arrived to ts j = record j {
  state = to;
  updated_at = ts;
  finished_at =
      (if str_eq to "done" || str_eq to "failed" || str_eq to "cancelled"
        then some ts
        else j.finished_at);
}

abbrev pub jobs_arrived : ℕ → String → ℕ → List Job → List Job
jobs_arrived id to ts [] = []
jobs_arrived id to ts (j ∷ js) =
    (if j.id == id then arrived to ts j else j) ∷ jobs_arrived id to ts js

-- The tables with other rows of jobs, and one more event under the next number.
abbrev with_rows : List Job → ℕ → ℕ → String → String → String → Tables → Tables
with_rows jobs ts id from to detail db =
    let event : JobEvent = record {
      id = db.next_event;
      job_id = id;
      ts = ts;
      from_state = from;
      to_state = to;
      detail = detail;
    } in
    record db {
      jobs = jobs;
      job_events = db.job_events ++ event ∷ [];
      next_event = db.next_event + 1;
    }

-- The tables after a transition at the second `ts`: the job arrives, and the others stay.
abbrev pub with_transition : ℕ → ℕ → String → String → String → Tables → Tables
with_transition ts id from to detail db = record db {
  jobs = jobs_arrived id to ts db.jobs;
  job_events =
      db.job_events
      ++ record {
        id = db.next_event;
        job_id = id;
        ts = ts;
        from_state = from;
        to_state = to;
        detail = detail;
      }
        ∷ [];
  next_event = db.next_event + 1;
}

pub not_ok : {A : Type 0} (e : SqlError) (a : A) → err e ≢ ok a
not_ok e a h = cc
