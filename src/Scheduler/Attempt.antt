-- ===== src/Scheduler/Attempt.antt =====
-- cmd/codefortd/ci_runner.go: the gate of executeRun before its jobs, one job in runJob, and the
-- claim leases. What the file system, git, the container and the context answer is an argument.
use codefort.Base.{
  ℕ, ◌+◌, ◌/◌, ◌≡◌, ◌↔◌, refl, ◌⊎◌, inl, inr, Bool, true, false, not, ◌&&◌, ◌||◌, Option, none,
  some, List, [], ◌∷◌, arith, ℤ, pos, negsuc, positive_seconds, ltb, if◌then◌else◌, Bool-cases,
  exists,
}
use codefort.Runs.{
  JobStatus, job_success, job_failed, job_error, job_interrupted, RunStatus, canceled, error,
}

-- The answers that executeRun gets before it schedules jobs, in its order.
pub record Setup : Type 0 where
  pub repo_known : Bool
  pub enabled_read : Bool
  pub pipeline_read : Bool
  pub enabled : Bool
  pub has_pipeline : Bool
  pub parsed : Bool
  pub sorted : Bool
  pub cleared : Bool
  pub created : Bool
  pub checked_out : Bool
  pub jobs_created : Bool

-- The status that executeRun finishes the run with before any job, or none when it goes on.
pub gate : Setup → Option RunStatus
gate s =
    if not (s.repo_known && s.enabled_read && s.pipeline_read)
    then some error
    else if not s.enabled || not s.has_pipeline
    then some canceled
    else if not (s.parsed && s.sorted && s.cleared && s.created && s.checked_out && s.jobs_created)
    then some error
    else none

-- A line that the plan's execution reports for a finished step.
pub record StepEvent : Type 0 where
  pub failed : Bool
  pub rc : Option ℤ

-- The answers that runJob gets, in its order; the two flags say whether ctx.Err() was
-- context.Canceled when the session or the plan had failed.
pub record Attempt : Type 0 where
  pub meta_known : Bool
  pub plan_known : Bool
  pub log_opened : Bool
  pub plan_written : Bool
  pub session_opened : Bool
  pub canceled_at_open : Bool
  pub events : List StepEvent
  pub plan_ran : Bool
  pub canceled_at_end : Bool

-- failedStep after the last event.
abbrev pub failed_step : Option StepEvent → List StepEvent → Option StepEvent
failed_step last [] = last
failed_step last (e ∷ es) = failed_step (if e.failed then some e else last) es

abbrev exit_code : Option ℤ → ℤ
exit_code none = pos 1
exit_code (some rc) = rc

abbrev cut_short : Bool → JobStatus
cut_short true = job_interrupted
cut_short false = job_error

-- The status that runJob finishes the job with, and the exit code.
pub run_job : Attempt → JobStatus × Option ℤ
run_job a =
    if not (a.meta_known && a.plan_known && a.log_opened && a.plan_written)
    then (job_error, none)
    else if not a.session_opened
    then (cut_short a.canceled_at_open, none)
    else if not a.plan_ran
    then (cut_short a.canceled_at_end, none)
    else elim (failed_step none a.events) [
      | some e ↦ (job_failed, some (exit_code e.rc))
      | none ↦ (job_success, some (pos 0))
    ]

-- timeout + grace, or 0 when there is no timeout; in nanoseconds.
abbrev extended : ℕ → ℤ → ℤ
extended grace (pos n) = if ltb 0 n then pos (n + grace) else pos 0
extended grace (negsuc n) = pos 0

-- The timeouts of CI and agent runs take five minutes more, and that of a turn two.
pub run_lease : ℤ → ℤ
run_lease timeout = extended 300_000_000_000 timeout

pub agent_lease : ℤ → ℤ
agent_lease timeout = extended 300_000_000_000 timeout

pub turn_lease : ℤ → ℤ
turn_lease timeout = extended 120_000_000_000 timeout

failed_step_set :
    (e : StepEvent) (es : List StepEvent) → (x : StepEvent) × (failed_step (some e) es ≡ some x)
failed_step_set e [] = (e, refl)
failed_step_set e (d ∷ es) = elim (Bool-cases d.failed) [
  | inl h ↦ let (x, eq) = failed_step_set d es in (x, ground (arith, h, eq))
  | inr h ↦ let (x, eq) = failed_step_set e es in (x, ground (arith, h, eq))
]

failed_step_cases :
    (es : List StepEvent)
    → ((exists (λ e. e.failed) es ≡ false) × (failed_step none es ≡ none))
      ⊎ ((exists (λ e. e.failed) es ≡ true) × (x : StepEvent) × (failed_step none es ≡ some x))
failed_step_cases [] = inl (refl, refl)
failed_step_cases (e ∷ es) = elim (Bool-cases e.failed) [
  | inl h ↦ let (x, eq) = failed_step_set e es in inr (ground (arith, h), x, ground (arith, h, eq))
  | inr h ↦ elim (failed_step_cases es) [
    | inl (none_failed, eq) ↦ inl (ground (arith, h, none_failed), ground (arith, h, eq))
    | inr (some_failed, x, eq) ↦ inr (ground (arith, h, some_failed), x, ground (arith, h, eq))
  ]
]

-- Every stage of the attempt went well.
abbrev pub went_well : Attempt → Bool
went_well a =
    a.meta_known && a.plan_known && a.log_opened && a.plan_written && a.session_opened && a.plan_ran

-- A job succeeds, with exit code 0, exactly when every stage went well and no step reported a
-- failure; it fails, with an exit code, when every stage went well and some step did; and otherwise
-- it is error or interrupted, with no exit code.
pub run_job_cases :
    (a : Attempt)
    → ((went_well a ≡ true)
        × (exists (λ e. e.failed) a.events ≡ false)
        × (run_job a ≡ (job_success, some (pos 0))))
      ⊎ ((went_well a ≡ true)
          × (exists (λ e. e.failed) a.events ≡ true)
          × (rc : ℤ) × (run_job a ≡ (job_failed, some rc)))
      ⊎ ((went_well a ≡ false)
          × ((run_job a ≡ (job_error, none)) ⊎ (run_job a ≡ (job_interrupted, none))))
unfolding run_job
run_job_cases a =
    elim (Bool-cases (a.meta_known && a.plan_known && a.log_opened && a.plan_written)) [
      | inr e ↦ inr (inr (ground (arith, e), inl (ground (arith, e))))
      | inl e ↦ elim (Bool-cases a.session_opened) [
        | inr f ↦ inr (
            inr (
              ground (arith, e, f),
              elim (Bool-cases a.canceled_at_open) [
                | inl c ↦ inr (ground (arith, e, f, c))
                | inr c ↦ inl (ground (arith, e, f, c))
              ],
            ))
        | inl f ↦ elim (Bool-cases a.plan_ran) [
          | inr g ↦ inr (
              inr (
                ground (arith, e, f, g),
                elim (Bool-cases a.canceled_at_end) [
                  | inl c ↦ inr (ground (arith, e, f, g, c))
                  | inr c ↦ inl (ground (arith, e, f, g, c))
                ],
              ))
          | inl g ↦ elim (failed_step_cases a.events) [
            | inl (none_failed, eq) ↦
                inl (ground (arith, e, f, g), none_failed, ground (arith, e, f, g, eq))
            | inr (some_failed, x, eq) ↦ inr (
                inl (
                  ground (arith, e, f, g),
                  some_failed,
                  exit_code x.rc,
                  ground (arith, e, f, g, eq),
                ))
          ]
        ]
      ]
    ]

seconds_later : (n : ℕ) → (n + 300_000_000_000) / 1_000_000_000 ≡ n / 1_000_000_000 + 300
seconds_later n = omega arith

-- A run that has no timeout has no lease, and one with a timeout of `t` whole seconds is leased for
-- five minutes more.
pub run_lease_outlasts :
    (timeout : ℤ)
    → ((positive_seconds timeout ≡ none) × (positive_seconds (run_lease timeout) ≡ none))
      ⊎ ((t : ℕ) × (positive_seconds timeout ≡ some t)
          × (positive_seconds (run_lease timeout) ≡ some (t + 300)))
unfolding run_lease
run_lease_outlasts (negsuc n) = inl (refl, refl)
run_lease_outlasts (pos n) = elim (Bool-cases (ltb 0 n)) [
  | inr e ↦ inl (ground (arith, e), ground (arith, e))
  | inl e ↦ inr (n / 1_000_000_000, ground (arith, e), ground (arith, e, seconds_later n))
]

-- Before its jobs a run is canceled exactly when the repository, its setting and its pipeline could
-- be read and CI is off or there is no pipeline; it goes on exactly when every answer was good.
pub gate_cases :
    (s : Setup)
    → ((gate s ≡ some canceled) ↔ (
        ((s.repo_known && s.enabled_read && s.pipeline_read) ≡ true)
        × ((s.enabled && s.has_pipeline) ≡ false)))
      × ((gate s ≡ none) ↔ (
          (s.repo_known && s.enabled_read && s.pipeline_read && s.enabled && s.has_pipeline
            && s.parsed && s.sorted && s.cleared && s.created && s.checked_out && s.jobs_created)
          ≡ true))
unfolding gate
gate_cases s = elim (Bool-cases (s.repo_known && s.enabled_read && s.pipeline_read)) [
  | inr e ↦ ((ground (arith, e), ground (arith, e)), (ground (arith, e), ground (arith, e)))
  | inl e ↦ elim (Bool-cases (s.enabled && s.has_pipeline)) [
    | inr f ↦
        ((ground (arith, e, f), ground (arith, e, f)), (ground (arith, e, f), ground (arith, e, f)))
    | inl f ↦
        ((ground (arith, e, f), ground (arith, e, f)), (ground (arith, e, f), ground (arith, e, f)))
  ]
]
