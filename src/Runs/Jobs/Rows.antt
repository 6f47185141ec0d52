-- ===== src/Runs/Jobs/Rows.antt =====
-- The rows of CreateJob of internal/storage/ci.go.
use codefort.Base.{
  ℕ, ◌≤◌, ◌≡◌, refl, sym, ap, ◌∙◌, inl, inr, String, none, some, List, [], ◌∷◌, ◌++◌, arith, nat_eq,
  string_eq, nat_beq_iff, eq_iff, Bool-cases, Option-cases, if◌then◌else◌, select_first, count,
  count-append, count-update, count_of_none, select_first-update, select_first-append_none,
  select_first_test,
}
use codefort.Runs.{job_queued, Job, Store}
use codefort.Runs.Jobs.{job_named, new_job, reset_job, create_job}

append_named :
    (jobs : List Job) (row : Job) (r : ℕ) (n : String)
    → count (job_named r n) jobs ≤ 1
    → select_first (job_named row.run_id row.name) jobs ≡ none
    → count (job_named r n) (jobs ++ row ∷ []) ≤ 1
append_named jobs row r n u free = elim (Bool-cases (job_named r n row)) [
  | inr e ↦ ground (arith, e, u, count-append (job_named r n) jobs (row ∷ []))
  | inl e ↦
      let same_run : row.run_id ≡ r = ground (arith, e, nat_beq_iff row.run_id r) in
      let same_name : row.name ≡ n = (eq_iff row.name n).0 (ground (arith, e)) in
      let zero_here : count (job_named r n) jobs ≡ 0 =
        rw (sym same_run, sym same_name)
          (count_of_none (job_named row.run_id row.name) jobs free) in
      ground (arith, e, zero_here, count-append (job_named r n) jobs (row ∷ []))
]

-- When the job names of each run are distinct, creating a job leaves a queued row with no exit code
-- and the given needs under its run and name, whether or not there was one, and the names stay
-- distinct.
pub create_job-queued :
    (s : Store) (now run : ℕ) (name : String) (needs : List String)
    → ((r : ℕ) → (n : String) → count (job_named r n) s.jobs ≤ 1)
    → ((j : Job) × (select_first (job_named run name) (create_job s now run name needs).1.jobs
          ≡ some j)
        × (j.status ≡ job_queued)
        × (j.exit_code ≡ none)
        × (j.needs ≡ needs))
      × ((r : ℕ)
          → (n : String) → count (job_named r n) (create_job s now run name needs).1.jobs ≤ 1)
unfolding create_job new_job reset_job
create_job-queued s now run name needs u =
    elim (Option-cases (select_first (job_named run name) s.jobs)) [
      | inr (j, e) ↦
          rw (e, create_job)
            (
              (
                reset_job needs j,
                select_first-update (job_named run name) (job_named run name) (reset_job needs)
                      s.jobs j (λ x. refl) e
                    ∙ ap (λ b. some (if b then reset_job needs j else j))
                        (select_first_test (job_named run name) s.jobs j e),
                refl,
                refl,
                refl,
              ),
              λ r n. omega (
                arith,
                u r n,
                count-update (job_named r n) (job_named run name) (reset_job needs) s.jobs
                    (λ x. refl),
              ),
            )
      | inl e ↦
          let row = new_job s.next_job now run name needs in
          rw (e, create_job)
            (
              (
                row,
                select_first-append_none (job_named run name) s.jobs (row ∷ []) e
                    ∙ ground (arith, nat_beq_iff run run, eq_iff name name),
                refl,
                refl,
                refl,
              ),
              λ r n. append_named s.jobs row r n (u r n) e,
            )
    ]
