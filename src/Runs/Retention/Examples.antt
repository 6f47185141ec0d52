-- ===== src/Runs/Retention/Examples.antt =====
-- Examples for the startup pass and for pruning: one run in flight, and three that are over.
use codefort.Base.{
  Bool, true, ◌↔◌, ℕ, ◌≤◌, ◌≡◌, ◌&&◌, none, some, [], ◌∷◌, arith, pos, ◌==◌, nat_eq, delete, count,
}
use codefort.Runs.{RunStatus, running, success, failed, ci, Run, Store, IsOrdered, HasUniqueNumbers}
use codefort.Runs.Retention.{is_prunable, prune_runs}
use codefort.Runs.Retention.Pruning.{prune_runs-exact, IsSettled, IsOutnumbered, prune_runs-bounded}

abbrev row : ℕ → RunStatus → Run
row n status = record {
  id = n;
  repo_id = 1;
  number = n;
  kind = ci;
  issue_number = none;
  execution_model = "claude-edit";
  tool_profile = "full";
  spec_path = "";
  commit_sha = "a1";
  commit_msg = "m";
  commit_author = "ann";
  ref = "refs/heads/main";
  event = "push";
  trigger = "ann";
  status = status;
  claimed_at = some 20;
  created_at = 10;
  started_at = some 20;
  finished_at = none;
}

abbrev store : Store
store = record {
  runs = row 1 success ∷ row 2 failed ∷ row 3 success ∷ row 4 running ∷ [];
  next_run = 5;
  jobs = [];
  next_job = 1;
  turns = [];
  next_turn = 1;
}

store-IsOrdered : IsOrdered store
store-IsOrdered = (
  (
    (omega arith, (omega arith, (omega arith, tt))),
    ((omega arith, (omega arith, tt)), ((omega arith, tt), (tt, tt))),
  ),
  (omega arith, (omega arith, (omega arith, (omega arith, tt)))),
)

store-HasUniqueNumbers : HasUniqueNumbers store
store-HasUniqueNumbers r n = ground arith

prune_runs-exact_example :
    (gone : Run → Bool) × ((prune_runs store (pos 2)).1.runs ≡ delete gone store.runs)
    × ((r : Run) → (gone r ≡ true) ↔ (IsSettled r.status × IsOutnumbered 2 store.runs r))
prune_runs-exact_example = prune_runs-exact store 2 store-IsOrdered (omega arith)

prune_runs-bounded_example :
    count (λ r. r.repo_id == 1 && is_prunable r.status) (prune_runs store (pos 2)).1.runs ≤ 2
prune_runs-bounded_example =
    prune_runs-bounded store 2 1 store-IsOrdered store-HasUniqueNumbers (omega arith)
