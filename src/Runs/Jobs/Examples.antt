-- ===== src/Runs/Jobs/Examples.antt =====
-- Examples for the jobs of a run: a job that failed is created again.
use codefort.Base.{ℕ, ◌≤◌, String, some, [], ◌∷◌, arith, pos, count}
use codefort.Runs.{job_failed, Job, Store}
use codefort.Runs.Jobs.{job_named}

abbrev failed_job : Job
failed_job = record {
  id = 1;
  run_id = 4;
  name = "build";
  needs = [];
  status = job_failed;
  exit_code = some (pos 2);
  created_at = 10;
  started_at = some 11;
  finished_at = some 12;
}

abbrev store : Store
store = record {
  runs = [];
  next_run = 5;
  jobs = failed_job ∷ [];
  next_job = 2;
  turns = [];
  next_turn = 1;
}

one_row : (r : ℕ) → (n : String) → count (job_named r n) store.jobs ≤ 1
one_row r n = ground arith
