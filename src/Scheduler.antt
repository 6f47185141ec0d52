-- ===== src/Scheduler.antt =====
-- cmd/codefortd/ci_runner.go: executeRun, the wave scheduler of a CI run, and classifyJob. What the
-- runner gets from outside is an argument: the order in which Go visits the pending map in a pass,
-- the status that runJob ends a job with, and the state of the run's context at each test.
pub mod Batches
pub mod Soundness
pub mod Passes
pub mod Verdict
pub mod Attempt
pub mod Examples
use codefort.Base.{
  ℕ, zero, suc, ◌+◌, String, Bool, true, false, not, ◌&&◌, ◌||◌, Option, none, some, List, [], ◌∷◌,
  ◌++◌, ◌==◌, string_eq, if◌then◌else◌, delete, length, contains,
}
use codefort.Runs.{
  JobStatus, job_success, job_skipped, job_error, job_interrupted, RunStatus, success, failed,
  canceled, error, interrupted,
}
use codefort.Ci.{Pipeline, needs_of}

-- ctx.Err(): nil, context.Canceled or context.DeadlineExceeded.
pub data Context : Type 0 where
  alive cut expired : Context

abbrev pub is_alive : Context → Bool
is_alive alive = true
is_alive _ = false

abbrev pub succeeded : JobStatus → Bool
succeeded job_success = true
succeeded _ = false

-- (ready, skip) of the needs; the flag is allResolvedSuccess.
abbrev pub classify : (String → Option JobStatus) → Bool → List String → Bool × Bool
classify status all [] = (all, false)
classify status all (dep ∷ deps) =
    let unresolved = classify status false deps in
    let resolved = classify status all deps in
    elim (status dep) [
      | none ↦ unresolved
      | some st ↦ if succeeded st then resolved else (false, true)
    ]

pub classify_job : List String → (String → Option JobStatus) → Bool × Bool
classify_job needs status = classify status true needs

-- status, pending and anyNotSuccess of executeRun.
pub record Schedule : Type 0 where
  pub status : String → Option JobStatus
  pub pending : List String
  pub any_not_success : Bool

-- status[jn] = st; delete(pending, jn), and the flag when the job did not succeed.
abbrev pub settle : String → JobStatus → Schedule → Schedule
settle jn st s = record {
  status = λ x. if x == jn then some st else s.status x;
  pending = delete (λ x. x == jn) s.pending;
  any_not_success = s.any_not_success || not (succeeded st);
}

abbrev pub settle_all : (String → JobStatus) → List String → Schedule → Schedule
settle_all f [] s = s
settle_all f (jn ∷ rest) s = settle_all f rest (settle jn (f jn) s)

-- One job of a pass, with the jobs found ready so far; the range over the pending map does not
-- produce a job that is no longer in it.
pub look : Pipeline → String → Schedule × List String → Schedule × List String
look p jn (s, ready) =
    let (is_ready, is_skip) = classify_job (needs_of p jn) s.status in
    if not (contains s.pending jn)
    then (s, ready)
    else if is_skip
    then (settle jn job_skipped s, ready)
    else if is_ready
    then (s, ready ++ jn ∷ [])
    else (s, ready)

pub scan : Pipeline → List String → Schedule × List String → Schedule × List String
scan p [] sr = sr
scan p (jn ∷ rest) sr = scan p rest (look p jn sr)

pub data Launch : Type 0 where
  stuck : Schedule → Launch
  wave : Schedule → Launch

-- One pass: the ready jobs run and end with their outcome; without any, the pending jobs are errored.
pub pass : Pipeline → (List String → List String) → (String → JobStatus) → Schedule → Launch
pass p visit outcome s =
    let (s', ready) = scan p (visit s.pending) (s, []) in
    elim ready [
      | [] ↦ stuck (settle_all (λ x. job_error) s'.pending s')
      | jn ∷ rest ↦ wave (settle_all outcome (jn ∷ rest) s')
    ]

abbrev pub is_empty : List String → Bool
is_empty [] = true
is_empty (x ∷ xs) = false

-- The scheduling loop from pass `n` on; `none` when the fuel runs out first.
module _ (p : Pipeline) (visit : ℕ → List String → List String) (outcome : String → JobStatus)
    (ctx : ℕ → Context) where
  pub passes : ℕ → ℕ → Schedule → Option Schedule
  passes zero n s = if is_empty s.pending || not (is_alive (ctx n)) then some s else none
  passes (suc fuel) n s = elim (is_empty s.pending || not (is_alive (ctx n))) [
    | true ↦ some s
    | false ↦ elim (pass p (visit n) outcome s) [
      | stuck s' ↦ some s'
      | wave s' ↦ passes fuel (suc n) s'
    ]
  ]

abbrev pub begin : List String → Schedule
begin order = record { status = λ x. none; pending = order; any_not_success = false }

-- What the jobs that never started are finished as, once the context is over.
abbrev pub leftover : Context → Option JobStatus
leftover alive = none
leftover cut = some job_interrupted
leftover expired = some job_error

-- The last switch: an operator's stop, then the context, then the jobs.
pub final_status : Bool → Context → Bool → RunStatus
final_status stopped ctx any_not_success = if stopped then canceled else elim ctx [
  | cut ↦ interrupted
  | expired ↦ error
  | alive ↦ if any_not_success then failed else success
]

-- The job statuses that a run ends with, and its own; the order is TopoOrder's.
pub execute_jobs :
    Pipeline
    → (ℕ → List String → List String)
    → (String → JobStatus)
    → (ℕ → Context)
    → Context
    → Bool
    → List String
    → Option ((String → Option JobStatus) × RunStatus)
execute_jobs p visit outcome ctx at_end stopped order =
    elim (passes p visit outcome ctx (length order) 0 (begin order)) [
      | none ↦ none
      | some s ↦ some (
        (λ x. if contains s.pending x then leftover at_end else s.status x),
        final_status stopped at_end s.any_not_success,
      )
    ]
