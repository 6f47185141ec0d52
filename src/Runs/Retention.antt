-- ===== src/Runs/Retention.antt =====
-- internal/storage/ci.go: ReconcileOrphanRuns at startup, and PruneRuns.
pub mod Orphans
pub mod Pruning
pub mod Examples
use codefort.Base.{
  ℕ, suc, ◌+◌, ◌<◌, String, Bool, true, false, ◌&&◌, ◌||◌, Option, none, some, List, [], ◌∷◌, ℤ,
  pos, negsuc, ltb, leb, ◌==◌, nat_eq, if◌then◌else◌, map, exists, select, update, delete, count,
}
use codefort.Runs.{
  RunStatus, success, failed, canceled, error, interrupted, is_running, is_awaiting, is_finishing,
  JobStatus, job_queued, job_running, job_interrupted, TurnStatus, turn_error, Run, Job, Turn,
  Store, run_is,
}
use codefort.Runs.Turns.{is_pending, is_turn_running}

-- status IN ('running','awaiting_input','finishing')
abbrev pub is_orphan : Run → Bool
is_orphan r = is_running r.status || is_awaiting r.status || is_finishing r.status

-- run_id IN (SELECT id FROM ci_runs WHERE …)
abbrev pub of_orphan : List Run → ℕ → Bool
of_orphan runs run = exists (λ r. r.id == run && is_orphan r) runs

-- status IN ('running','queued')
abbrev pub is_unfinished : JobStatus → Bool
is_unfinished job_running = true
is_unfinished job_queued = true
is_unfinished _ = false

unfoldable pub reconcile_orphan_runs : Store → ℕ → ℕ × Store
reconcile_orphan_runs s now = (
  count is_orphan s.runs,
  record s {
    jobs =
        update (λ j. is_unfinished j.status && of_orphan s.runs j.run_id)
          (λ j. record j { status = job_interrupted; finished_at = some now }) s.jobs;
    turns =
        update (λ t. (is_pending t.status || is_turn_running t.status) && of_orphan s.runs t.run_id)
          (λ t. record t { status = turn_error; finished_at = some now }) s.turns;
    runs = update is_orphan (λ r. record r { status = interrupted; finished_at = some now }) s.runs;
  },
)

-- status IN ('success','failed','canceled','error')
abbrev pub is_prunable : RunStatus → Bool
is_prunable success = true
is_prunable failed = true
is_prunable canceled = true
is_prunable error = true
is_prunable _ = false

-- SELECT COUNT(*) FROM ci_runs n WHERE n.repo_id = r.repo_id AND n.number > r.number
abbrev pub newer : List Run → Run → ℕ
newer runs r = count (λ n. n.repo_id == r.repo_id && ltb r.number n.number) runs

pub prunable : List Run → ℕ → Run → Bool
prunable runs keep r = is_prunable r.status && leb keep (newer runs r)

-- The loop over the selected ids: the run's jobs, then the run, whose turns go with it (ON DELETE
-- CASCADE in migrations.go).
delete_runs : List ℕ → Store → Store
delete_runs [] s = s
delete_runs (id ∷ ids) s = delete_runs ids (record s {
  jobs = delete (λ j. j.run_id == id) s.jobs;
  runs = delete (run_is id) s.runs;
  turns = delete (λ t. t.run_id == id) s.turns;
})

pub record PrunableRun : Type 0 where
  pub repo_id : ℕ
  pub number : ℕ

pub prune_runs : Store → ℤ → List PrunableRun × Store
prune_runs s (negsuc keep) = ([], s)
prune_runs s (pos keep) =
    if keep == 0
    then ([], s)
    else let chosen = select (prunable s.runs keep) s.runs in
      (
        map (λ r. record { repo_id = r.repo_id; number = r.number }) chosen,
        delete_runs (map (λ r. r.id) chosen) s,
      )
