-- ===== src/Scheduler/Examples.antt =====
-- Examples for the scheduler: a build that fails, and a test that needs it.
use codefort.Base.{
  ℕ, ◌<◌, eq_iff, subst, ◌≡◌, refl, ◌⊎◌, inl, inr, String, true, false, Option, some, List, [], ◌∷◌,
  arith, ◌==◌, string_eq, contains, if◌then◌else◌, Bool-cases,
}
use codefort.Runs.{JobStatus, job_success, job_failed, RunStatus, success, failed}
use codefort.Scheduler.Attempt.{Setup}
use codefort.Ci.{scalar, node, no_nodes, Job, Pipeline, needs_of}
use codefort.Scheduler.{Context, alive, execute_jobs}
use codefort.Scheduler.Batches.{is_done}
use codefort.Scheduler.Soundness.{IsExplained}
use codefort.Scheduler.Passes.{HasKnownNeeds}
use codefort.Scheduler.Verdict.{execute_jobs-IsExplained, execute_jobs_success}

abbrev job : List String → Job
job needs = record {
  needs = needs;
  image = "";
  docker_socket = false;
  steps = node scalar "make" no_nodes ∷ [];
}

abbrev pipeline : Pipeline
pipeline = record {
  version = "1";
  branches = [];
  schedule = [];
  jobs = ("test", job ("build" ∷ [])) ∷ ("build", job []) ∷ [];
}

abbrev order : List String
order = "build" ∷ "test" ∷ []

abbrev visit : ℕ → List String → List String
visit n xs = xs

abbrev outcome : String → JobStatus
outcome a = if a == "build" then job_failed else job_success

abbrev ctx : ℕ → Context
ctx n = alive

known_needs : HasKnownNeeds pipeline order
known_needs a d k h = elim (Bool-cases ("test" == a)) [
  | inl e ↦ ground (arith, h, e)
  | inr e ↦ absurd (ground (arith, h, e))
]

execute_jobs-IsExplained_example :
    (status : String → Option JobStatus) × (verdict : RunStatus) × (execute_jobs pipeline visit
        outcome ctx alive false order
      ≡ some (status, verdict))
    × ((a : String)
        → contains order a ≡ true
        → (st : JobStatus) × (status a ≡ some st) × IsExplained pipeline outcome status a st)
    × (((verdict ≡ success) × ((a : String) → contains order a ≡ true → is_done status a ≡ true))
        ⊎ ((verdict ≡ failed)
            × (a : String) × (contains order a ≡ true)
            × (is_done status a ≡ false)))
execute_jobs-IsExplained_example =
    execute_jobs-IsExplained pipeline visit outcome ctx order known_needs (λ n xs a h. h)
      (λ k. refl)

abbrev good_setup : Setup
good_setup = record {
  repo_known = true;
  enabled_read = true;
  pipeline_read = true;
  enabled = true;
  has_pipeline = true;
  parsed = true;
  sorted = true;
  cleared = true;
  created = true;
  checked_out = true;
  jobs_created = true;
}

abbrev depth : String → ℕ
depth a = if a == "build" then 0 else 1

needs_lower :
    (a d : String)
    → contains order a ≡ true
    → contains (needs_of pipeline a) d ≡ true
    → depth d < depth a
needs_lower a d k h = elim (Bool-cases ("test" == a)) [
  | inl e ↦ subst (λ x. depth d < depth x) ((eq_iff "test" a).0 e) (ground (arith, h, e))
  | inr e ↦ absurd (ground (arith, h, e))
]

execute_jobs_success_example :
    (status : String → Option JobStatus) × (execute_jobs pipeline visit
        (λ a. job_success)
        ctx
        alive
        false
        order
      ≡ some (status, success))
    × ((a : String) → contains order a ≡ true → status a ≡ some job_success)
execute_jobs_success_example =
    execute_jobs_success pipeline visit (λ a. job_success) ctx order depth known_needs
      (λ n xs a h. h) (λ k. refl) needs_lower (λ a. refl)
