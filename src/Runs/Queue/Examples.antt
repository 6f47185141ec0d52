-- ===== src/Runs/Queue/Examples.antt =====
-- Examples for the run queue: two queued CI runs of one repository.
use codefort.Base.{
  select_first, ◌≤◌, ℕ, ◌+◌, ◌<◌, ◌≡◌, ◌≢◌, refl, ◌⊎◌, Option, none, some, List, [], ◌∷◌, arith, ℤ,
  pos, positive_seconds, All,
}
use codefort.Storage.{ok, err, no_run_queued}
use codefort.Runs.{
  run_is, RunStatus, queued, running, success, ci, Run, Store, IsOrdered, HasUniqueNumbers,
}
use codefort.Runs.Queue.{NewRun, claimable_run, claim_run_row, claim_next_run_of_kind}
use codefort.Runs.Queue.Claiming.{claims_exclusive}
use codefort.Runs.Queue.Oldest.{IsClaimable, handed_out, claim-IsOldest}
use codefort.Runs.Queue.Lifecycle.{
  Call, claims, finishes, parks, reconciles, run, IsOver, run-IsOver,
}

abbrev row : ℕ → RunStatus → Option ℕ → Run
row n status since = record {
  id = n;
  repo_id = 1;
  number = n;
  kind = ci;
  issue_number = none;
  execution_model = "claude-edit";
  tool_profile = "full";
  spec_path = "";
  commit_sha = "a1";
  commit_msg = "m";
  commit_author = "ann";
  ref = "refs/heads/main";
  event = "push";
  trigger = "ann";
  status = status;
  claimed_at = since;
  created_at = 10;
  started_at = since;
  finished_at = none;
}

abbrev holding : List Run → Store
holding runs = record {
  runs = runs;
  next_run = 3;
  jobs = [];
  next_job = 1;
  turns = [];
  next_turn = 1;
}

abbrev fresh : Store
fresh = holding (row 1 queued none ∷ row 2 queued none ∷ [])

abbrev one_taken : Store
one_taken = holding (row 1 running (some 100) ∷ row 2 queued none ∷ [])

abbrev both_taken : Store
both_taken = holding (row 1 running (some 100) ∷ row 2 running (some 120) ∷ [])

abbrev minute : ℤ
minute = pos 60_000_000_000

fresh-IsOrdered : IsOrdered fresh
fresh-IsOrdered = (((omega arith, tt), (tt, tt)), (omega arith, (omega arith, tt)))

fresh-HasUniqueNumbers : HasUniqueNumbers fresh
fresh-HasUniqueNumbers r n = ground arith

claim-IsOldest_example :
    (All (λ r. ¬ IsClaimable 100 ci minute r) fresh.runs
      × (claim_next_run_of_kind fresh 100 ci minute ≡ err no_run_queued))
    ⊎ ((r : Run) × (s' : Store) × (select_first (run_is r.id) fresh.runs ≡ some r)
        × IsClaimable 100 ci minute r
        × All (λ x. IsClaimable 100 ci minute x → r.id ≤ x.id) fresh.runs
        × (claim_next_run_of_kind fresh 100 ci minute ≡ ok (handed_out 100 r, s'))
        × (select_first (run_is r.id) s'.runs ≡ some (handed_out 100 r))
        × ((id : ℕ)
            → id ≢ r.id
            → select_first (run_is id) s'.runs ≡ select_first (run_is id) fresh.runs))
claim-IsOldest_example = claim-IsOldest fresh 100 ci minute fresh-IsOrdered

live : (s : ℕ) → positive_seconds minute ≡ some s → 120 < 100 + s
live s e = ground (arith, e)

claims_exclusive_example : (row 2 running (some 120)).id ≢ (row 1 running (some 100)).id
unfolding claim_next_run_of_kind claimable_run claim_run_row
claims_exclusive_example =
    claims_exclusive fresh one_taken both_taken 100 120 ci ci minute minute
      (row 1 running (some 100)) (row 2 running (some 120)) fresh-IsOrdered refl refl live

abbrev request : NewRun
request = record {
  kind = none;
  issue_number = none;
  execution_model = "";
  tool_profile = "";
  spec_path = "";
  commit_sha = "b2";
  commit_msg = "m";
  commit_author = "ann";
  ref = "refs/heads/main";
  event = "push";
  trigger = "ann";
}

abbrev finished : Store
finished = holding (row 1 success (some 100) ∷ row 2 queued none ∷ [])

over : IsOver 1 finished
over = record { row = row 1 success (some 100); there = refl; over = refl }

abbrev calls : List (ℕ × Call)
calls =
    (200, claims ci minute) ∷ (210, parks 1) ∷ (220, finishes 2 success) ∷ (230, reconciles) ∷ []

run-IsOver_example : IsOver 1 (run finished calls)
run-IsOver_example = run-IsOver finished 1 calls over
