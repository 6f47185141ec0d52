-- ===== src/Runs.antt =====
-- The run store of internal/storage/ci.go and agent_turns.go: tables and lifecycle states.
-- Time is the `now` of the statement in Unix seconds. The ci_runs, ci_jobs and agent_turns tables
-- are lists in id order.
pub mod Queue
pub mod Jobs
pub mod Turns
pub mod Retention
pub mod Statuses
use codefort.Base.{
  ℕ, zero, suc, ◌+◌, ◌≤◌, ◌≡◌, refl, ap, sym, ◌∙◌, String, Bool, true, false, not, ◌&&◌, leb,
  Option, none, some, List, ℤ, nat_beq, nat_beq_iff, ◌==◌, nat_eq, if◌then◌else◌, count, ◌<◌, All,
  Ascending,
}

pub data RunStatus : Type 0 where
  queued running awaiting_input finishing success failed canceled error interrupted stalled :
      RunStatus

pub data RunKind : Type 0 where
  ci agent spec_verify : RunKind

pub data JobStatus : Type 0 where
  job_queued job_running job_success job_failed job_skipped job_error job_interrupted : JobStatus

pub data TurnStatus : Type 0 where
  turn_pending turn_running turn_done turn_error : TurnStatus

-- RunStatus.Terminal
abbrev pub terminal : RunStatus → Bool
terminal success = true
terminal failed = true
terminal canceled = true
terminal error = true
terminal interrupted = true
terminal stalled = true
terminal _ = false

-- status IN ('queued','running','awaiting_input','finishing')
abbrev pub active : RunStatus → Bool
active queued = true
active running = true
active awaiting_input = true
active finishing = true
active _ = false

-- RunKind.IsAgent: membership in AgentRunKinds.
abbrev pub is_agent : RunKind → Bool
is_agent agent = true
is_agent spec_verify = true
is_agent ci = false

-- The tests that the statements make on a status or a kind.
abbrev pub is_queued : RunStatus → Bool
is_queued queued = true
is_queued _ = false

abbrev pub is_running : RunStatus → Bool
is_running running = true
is_running _ = false

abbrev pub is_awaiting : RunStatus → Bool
is_awaiting awaiting_input = true
is_awaiting _ = false

abbrev pub is_finishing : RunStatus → Bool
is_finishing finishing = true
is_finishing _ = false

abbrev pub same_kind : RunKind → RunKind → Bool
same_kind ci ci = true
same_kind agent agent = true
same_kind spec_verify spec_verify = true
same_kind _ _ = false

pub record Run : Type 0 where
  pub id : ℕ
  pub repo_id : ℕ
  pub number : ℕ
  pub kind : RunKind
  pub issue_number : Option ℕ
  pub execution_model : String
  pub tool_profile : String
  pub spec_path : String
  pub commit_sha : String
  pub commit_msg : String
  pub commit_author : String
  pub ref : String
  pub event : String
  pub trigger : String
  pub status : RunStatus
  pub claimed_at : Option ℕ
  pub created_at : ℕ
  pub started_at : Option ℕ
  pub finished_at : Option ℕ

pub record Job : Type 0 where
  pub id : ℕ
  pub run_id : ℕ
  pub name : String
  pub needs : List String
  pub status : JobStatus
  pub exit_code : Option ℤ
  pub created_at : ℕ
  pub started_at : Option ℕ
  pub finished_at : Option ℕ

pub record Turn : Type 0 where
  pub id : ℕ
  pub run_id : ℕ
  pub seq : ℕ
  pub author : String
  pub body : String
  pub status : TurnStatus
  pub claimed_at : Option ℕ
  pub created_at : ℕ
  pub started_at : Option ℕ
  pub finished_at : Option ℕ

pub record Store : Type 0 where
  pub runs : List Run
  pub next_run : ℕ
  pub jobs : List Job
  pub next_job : ℕ
  pub turns : List Turn
  pub next_turn : ℕ

-- WHERE id = ?
abbrev pub run_is : ℕ → Run → Bool
run_is id r = r.id == id

-- WHERE repo_id = ? AND number = ?
abbrev pub numbered : ℕ → ℕ → Run → Bool
numbered repo number r = r.repo_id == repo && r.number == number

-- COALESCE(column, now)
abbrev pub or_now : Option ℕ → ℕ → ℕ
or_now none now = now
or_now (some t) now = t

-- claimed_at <= strftime('%s','now') - seconds; a NULL claimed_at is not.
abbrev pub past_lease : ℕ → ℕ → Option ℕ → Bool
past_lease now seconds none = false
past_lease now seconds (some c) = leb (c + seconds) now

-- The rows are in id order, and AUTOINCREMENT never gives an old id again.
abbrev pub IsOrdered : Store → Type 0
IsOrdered s = Ascending (λ r. r.id) s.runs × All (λ r. r.id < s.next_run) s.runs

-- UNIQUE (repo_id, number) of ci_runs.
abbrev pub HasUniqueNumbers : Store → Type 0
HasUniqueNumbers s = (repo number : ℕ) → count (numbered repo number) s.runs ≤ 1

-- A status is final exactly when the statements do not list it as active.
pub active-terminal : (s : RunStatus) → active s ≡ not (terminal s)
active-terminal queued = refl
active-terminal running = refl
active-terminal awaiting_input = refl
active-terminal finishing = refl
active-terminal success = refl
active-terminal failed = refl
active-terminal canceled = refl
active-terminal error = refl
active-terminal interrupted = refl
active-terminal stalled = refl
