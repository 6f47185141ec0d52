-- ===== src/Runs/Jobs.antt =====
-- internal/storage/ci.go: the jobs of a run, CreateJob, StartJob and FinishJob.
pub mod Rows
pub mod Examples
use codefort.Base.{
  ℕ, suc, String, Bool, ◌&&◌, Option, none, some, List, [], ◌∷◌, ◌++◌, ℤ, ◌==◌, nat_eq, string_eq,
  if◌then◌else◌, select_first, select, update, count,
}
use codefort.Storage.{Result, affected}
use codefort.Runs.{JobStatus, job_queued, job_running, Job, Store}

-- UNIQUE (run_id, name)
abbrev pub job_named : ℕ → String → Job → Bool
job_named run name j = j.run_id == run && j.name == name

-- WHERE id = ?
abbrev pub job_is : ℕ → Job → Bool
job_is id j = j.id == id

pub new_job : ℕ → ℕ → ℕ → String → List String → Job
new_job id now run name needs = record {
  id = id;
  run_id = run;
  name = name;
  needs = needs;
  status = job_queued;
  exit_code = none;
  created_at = now;
  started_at = none;
  finished_at = none;
}

-- ON CONFLICT(run_id, name) DO UPDATE
pub reset_job : List String → Job → Job
reset_job needs j = record j {
  needs = needs;
  status = job_queued;
  exit_code = none;
  started_at = none;
  finished_at = none;
}

pub create_job : Store → ℕ → ℕ → String → List String → Job × Store
create_job s now run name needs = elim (select_first (job_named run name) s.jobs) [
  | some j ↦
      (reset_job needs j, record s { jobs = update (job_named run name) (reset_job needs) s.jobs })
  | none ↦
      let row = new_job s.next_job now run name needs in
      (row, record s { jobs = s.jobs ++ row ∷ []; next_job = suc s.next_job })
]

pub start_job : Store → ℕ → ℕ → Result Store
start_job s now id = affected (count (job_is id) s.jobs) (record s {
  jobs = update (job_is id) (λ j. record j { status = job_running; started_at = some now }) s.jobs;
})

pub finish_job : Store → ℕ → ℕ → JobStatus → Option ℤ → Result Store
finish_job s now id status exit_code = affected (count (job_is id) s.jobs) (record s {
  jobs =
      update (job_is id)
        (λ j. record j { status = status; exit_code = exit_code; finished_at = some now }) s.jobs;
})

pub list_jobs : Store → ℕ → List Job
list_jobs s run = select (λ j. j.run_id == run) s.jobs
