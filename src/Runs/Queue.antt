-- ===== src/Runs/Queue.antt =====
-- internal/storage/ci.go and agent_turns.go: a run from EnqueueRun to FinishRun.
pub mod Claiming
pub mod Oldest
pub mod Numbering
pub mod Lifecycle
pub mod Examples
use codefort.Base.{
  ℕ, zero, suc, ◌+◌, String, Bool, true, false, not, ◌&&◌, ◌||◌, Option, none, some, List, [], ◌∷◌,
  ◌++◌, ℤ, positive_seconds, leb, ◌==◌, nat_eq, string_eq, if◌then◌else◌, map, select_first, select,
  update, count, max_of,
}
use codefort.Storage.{
  Result, ok, err, ◌>>=◌, found, affected, not_found, no_run_queued, status_not_terminal,
}
use codefort.Runs.{
  RunStatus, queued, running, awaiting_input, finishing, canceled, RunKind, ci, agent, terminal,
  active, is_queued, is_running, is_awaiting, is_finishing, same_kind, Run, Store, run_is, numbered,
  or_now, past_lease,
}

pub record NewRun : Type 0 where
  pub kind : Option RunKind
  pub issue_number : Option ℕ
  pub execution_model : String
  pub tool_profile : String
  pub spec_path : String
  pub commit_sha : String
  pub commit_msg : String
  pub commit_author : String
  pub ref : String
  pub event : String
  pub trigger : String

-- The zero value of RunKind is RunKindCI.
abbrev kind_or_ci : Option RunKind → RunKind
kind_or_ci none = ci
kind_or_ci (some k) = k

abbrev or_default : String → String → String
or_default value default = if value == "" then default else value

-- SELECT COALESCE(MAX(number), 0) + 1 FROM ci_runs WHERE repo_id = ?
abbrev pub next_run_number : Store → ℕ → ℕ
next_run_number s repo = max_of (λ r. r.repo_id == repo) (λ r. r.number) s.runs + 1

unfoldable pub enqueue_run : Store → ℕ → ℕ → NewRun → Run × Store
enqueue_run s now repo r =
    let row : Run = record {
      id = s.next_run;
      repo_id = repo;
      number = next_run_number s repo;
      kind = kind_or_ci r.kind;
      issue_number = r.issue_number;
      execution_model = or_default r.execution_model "claude-edit";
      tool_profile = or_default r.tool_profile "full";
      spec_path = r.spec_path;
      commit_sha = r.commit_sha;
      commit_msg = r.commit_msg;
      commit_author = r.commit_author;
      ref = r.ref;
      event = r.event;
      trigger = r.trigger;
      status = queued;
      claimed_at = none;
      created_at = now;
      started_at = none;
      finished_at = none;
    } in
    (row, record s { runs = s.runs ++ row ∷ []; next_run = suc s.next_run })

pub get_run : Store → ℕ → ℕ → Result Run
get_run s repo number = found (select_first (numbered repo number) s.runs) not_found

-- kind = ? AND (status = 'queued' OR (status = 'running' AND claimed_at <= now - lease)), the second
-- only for a positive lease.
pub claimable_run : ℤ → ℕ → RunKind → Run → Bool
claimable_run lease now kind r =
    same_kind r.kind kind
    && (is_queued r.status || elim (positive_seconds lease) [
      | none ↦ false
      | some s ↦ is_running r.status && past_lease now s r.claimed_at
    ])

pub claim_run_row : ℕ → Run → Run
claim_run_row now r = record r {
  status = running;
  claimed_at = some now;
  started_at = some (or_now r.started_at now);
}

-- SELECT the oldest claimable id, then the UPDATE of that id under the same test.
pub claim_next_run_of_kind : Store → ℕ → RunKind → ℤ → Result (Run × Store)
claim_next_run_of_kind s now kind lease = do
  row ← found (select_first (claimable_run lease now kind) s.runs) no_run_queued
  let taken = λ (r : Run). r.id == row.id && claimable_run lease now kind r in
      if count taken s.runs == 0
      then err no_run_queued
      else ok (claim_run_row now row, record s { runs = update taken (claim_run_row now) s.runs })

pub claim_next_run : Store → ℕ → ℤ → Result (Run × Store)
claim_next_run s now lease = claim_next_run_of_kind s now ci lease

abbrev finish_row : ℕ → RunStatus → Run → Run
finish_row now status r = record r { status = status; finished_at = some now }

-- The one UPDATE that the status transitions share: it is ErrNotFound when no row passes the test.
abbrev pub update_run : Store → (Run → Bool) → (Run → Run) → Result Store
update_run s test set = affected (count test s.runs) (record s { runs = update test set s.runs })

pub finish_run : Store → ℕ → ℕ → RunStatus → Result Store
finish_run s now id status =
    if not (terminal status)
    then err status_not_terminal
    else update_run s (run_is id) (finish_row now status)

pub mark_run_awaiting_input : Store → ℕ → Result Store
mark_run_awaiting_input s id =
    update_run s (λ r. r.id == id && is_running r.status)
      (λ r. record r { status = awaiting_input })

pub mark_run_finishing : Store → ℕ → Result Store
mark_run_finishing s id =
    update_run s (λ r. r.id == id && is_awaiting r.status) (λ r. record r { status = finishing })

pub cancel_agent_run : Store → ℕ → ℕ → Result Store
cancel_agent_run s now id =
    update_run s (λ r. r.id == id && same_kind r.kind agent && active r.status)
      (finish_row now canceled)

pub cancel_ci_run : Store → ℕ → ℕ → Result Store
cancel_ci_run s now id =
    update_run s (λ r. r.id == id && same_kind r.kind ci && is_queued r.status)
      (finish_row now canceled)

-- finishing → running, so that a second pass does not take the run again.
pub claim_next_finishing_run : Store → Result (Run × Store)
claim_next_finishing_run s = do
  row ←
      found (select_first (λ r. same_kind r.kind agent && is_finishing r.status) s.runs)
        no_run_queued
  let taken = λ (r : Run). r.id == row.id && is_finishing r.status in
      if count taken s.runs == 0
      then err no_run_queued
      else ok (
        record row { status = running },
        record s { runs = update taken (λ r. record r { status = running }) s.runs },
      )

-- The ids of the CI runs that a push to `ref` supersedes.
pub active_ci_run_ids_for_ref : Store → ℕ → String → List ℕ
active_ci_run_ids_for_ref s repo ref =
    map (λ r. r.id)
      (select
        (λ r.
          r.repo_id == repo
          && r.ref == ref
          && same_kind r.kind ci
          && (is_queued r.status || is_running r.status))
        s.runs)

pub count_active_runs : Store → ℕ → ℕ
count_active_runs s repo = count (λ r. r.repo_id == repo && active r.status) s.runs
