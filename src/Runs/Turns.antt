-- ===== src/Runs/Turns.antt =====
-- internal/storage/agent_turns.go: the follow-up turns of an agent run.
pub mod Dispatch
pub mod Examples
use codefort.Base.{
  ℕ, suc, ◌+◌, String, Bool, true, false, ◌&&◌, ◌||◌, Option, none, some, List, [], ◌∷◌, ◌++◌, ℤ,
  positive_seconds, leb, ◌==◌, nat_eq, if◌then◌else◌, select_first, select, update, count, max_of,
}
use codefort.Storage.{Result, ok, err, ◌>>=◌, found, affected, not_found, no_turn_pending}
use codefort.Runs.{
  RunStatus, running, RunKind, agent, TurnStatus, turn_pending, turn_running, turn_done, turn_error,
  is_awaiting, same_kind, Run, Turn, Store, run_is, or_now, past_lease,
}

abbrev pub is_pending : TurnStatus → Bool
is_pending turn_pending = true
is_pending _ = false

abbrev pub is_turn_running : TurnStatus → Bool
is_turn_running turn_running = true
is_turn_running _ = false

pub enqueue_turn : Store → ℕ → ℕ → String → String → Turn × Store
enqueue_turn s now run author body =
    let row : Turn = record {
      id = s.next_turn;
      run_id = run;
      seq = max_of (λ t. t.run_id == run) (λ t. t.seq) s.turns + 1;
      author = author;
      body = body;
      status = turn_pending;
      claimed_at = none;
      created_at = now;
      started_at = none;
      finished_at = none;
    } in
    (row, record s { turns = s.turns ++ row ∷ []; next_turn = suc s.next_turn })

-- (SELECT status FROM ci_runs WHERE id = run_id) = 'awaiting_input'
abbrev pub run_awaits : Store → ℕ → Bool
run_awaits s run = elim (select_first (run_is run) s.runs) [
  | none ↦ false
  | some r ↦ is_awaiting r.status
]

-- JOIN ci_runs … WHERE r.kind = 'agent'
abbrev pub run_of_agent : Store → ℕ → Bool
run_of_agent s run = elim (select_first (run_is run) s.runs) [
  | none ↦ false
  | some r ↦ same_kind r.kind agent
]

-- The compare-and-set of the UPDATE: pending on a parked run, or running past a positive lease.
pub dispatchable : Store → ℤ → ℕ → Turn → Bool
dispatchable s lease now t =
    is_pending t.status && run_awaits s t.run_id || elim (positive_seconds lease) [
      | none ↦ false
      | some secs ↦ is_turn_running t.status && past_lease now secs t.claimed_at
    ]

pub claim_turn_row : ℕ → Turn → Turn
claim_turn_row now t = record t {
  status = turn_running;
  claimed_at = some now;
  started_at = some (or_now t.started_at now);
}

-- The oldest dispatchable turn of an agent run, and the flip of its run to running.
pub claim_next_turn : Store → ℕ → ℤ → Result ((Turn × Run) × Store)
claim_next_turn s now lease = do
  row ←
      found (select_first (λ t. run_of_agent s t.run_id && dispatchable s lease now t) s.turns)
        no_turn_pending
  let taken = λ (t : Turn). t.id == row.id && dispatchable s lease now t in
      let turns = update taken (claim_turn_row now) s.turns in
      let runs = update (run_is row.run_id) (λ r. record r { status = running }) s.runs in
      if count taken s.turns == 0 then err no_turn_pending else do
        run ← found (select_first (run_is row.run_id) runs) not_found
        ok ((claim_turn_row now row, run), record s { turns = turns; runs = runs })

-- started_at IS NOT NULL AND started_at <= now - maxAge; nothing for a non-positive maxAge.
pub list_expired_awaiting_runs : Store → ℕ → ℤ → List Run
list_expired_awaiting_runs s now max_age = elim (positive_seconds max_age) [
  | none ↦ []
  | some secs ↦
      select
        (λ r. same_kind r.kind agent && is_awaiting r.status && past_lease now secs r.started_at)
        s.runs
]

pub finish_turn : Store → ℕ → ℕ → TurnStatus → Result Store
finish_turn s now id status = affected (count (λ t. t.id == id) s.turns) (record s {
  turns =
      update (λ t. t.id == id) (λ t. record t { status = status; finished_at = some now }) s.turns;
})
