-- ===== src/Runs/Turns/Examples.antt =====
-- Examples for turns: a canceled agent run with a turn that is past its lease.
use codefort.Base.{Any, ℕ, ◌≡◌, refl, none, some, [], ◌∷◌, pos, select_first}
use codefort.Runs.{RunStatus, running, canceled, agent, turn_running, Run, Turn, Store, run_is}
use codefort.Runs.Turns.{dispatchable, claim_turn_row, claim_next_turn}
use codefort.Runs.Turns.Dispatch.{IsDispatchable, sent, claim_next_turn_sound}

abbrev row : RunStatus → Run
row status = record {
  id = 1;
  repo_id = 1;
  number = 1;
  kind = agent;
  issue_number = some 4;
  execution_model = "claude-edit";
  tool_profile = "full";
  spec_path = "";
  commit_sha = "a1";
  commit_msg = "m";
  commit_author = "ann";
  ref = "refs/heads/main";
  event = "agent";
  trigger = "ann";
  status = status;
  claimed_at = some 90;
  created_at = 10;
  started_at = some 90;
  finished_at = none;
}

abbrev turn : ℕ → Turn
turn since = record {
  id = 1;
  run_id = 1;
  seq = 1;
  author = "ann";
  body = "go on";
  status = turn_running;
  claimed_at = some since;
  created_at = 95;
  started_at = some 100;
  finished_at = none;
}

abbrev holding : Run → Turn → Store
holding r t = record {
  runs = r ∷ [];
  next_run = 2;
  jobs = [];
  next_job = 1;
  turns = t ∷ [];
  next_turn = 2;
}

claim_next_turn_sound_example :
    (t₀ : Turn) × (r₀ : Run) × Any (λ x. x ≡ t₀) (holding (row canceled) (turn 100)).turns
    × (select_first (run_is t₀.run_id) (holding (row canceled) (turn 100)).runs ≡ some r₀)
    × (r₀.kind ≡ agent)
    × IsDispatchable (pos 60_000_000_000) 200 t₀ r₀
    × (turn 200 ≡ sent 200 t₀)
    × (row running ≡ record r₀ { status = running })
unfolding claim_next_turn dispatchable claim_turn_row
claim_next_turn_sound_example =
    claim_next_turn_sound (holding (row canceled) (turn 100)) (holding (row running) (turn 200)) 200
      (pos 60_000_000_000) (turn 200) (row running) refl
