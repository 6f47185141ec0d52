-- ===== src/Issues.antt =====
-- The issue tracker of internal/storage/issues.go and dependencies.go: tables and lookups.
-- Time is the `now` of the statement in Unix seconds. A title, body or label is a text that the
-- storage layer only stores.
pub mod Dependencies
pub mod Edit
pub mod Claims
pub mod Views
use codefort.Base.{
  ℕ, String, Bool, true, false, ◌&&◌, Option, none, some, List, ℤ, pos, negsuc, ◌==◌, nat_eq,
  select_first, exists, count, ◌≤◌, ◌⊎◌, ◌≢◌,
}

pub data IssueState : Type 0 where
  todo in_progress done closed : IssueState

pub record Issue : Type 0 where
  pub id : ℕ
  pub repo_id : ℕ
  pub number : ℕ
  pub title : String
  pub body : String
  pub author : String
  pub state : IssueState
  pub assignee : Option String
  pub claimed_at : Option ℕ
  pub parent_number : Option ℕ
  pub created_at : ℕ
  pub updated_at : ℕ
  pub labels : List String

pub record Comment : Type 0 where
  pub id : ℕ
  pub issue_id : ℕ
  pub author : String
  pub text : String

-- A row of issue_dependencies: `issue_number` is blocked until `depends_on` is done.
pub record Dependency : Type 0 where
  pub repo_id : ℕ
  pub issue_number : ℕ
  pub depends_on : ℕ

pub record Tracker : Type 0 where
  pub issues : List Issue
  pub next_id : ℕ
  pub comments : List Comment
  pub dependencies : List Dependency

-- WHERE repo_id = ? AND number = ?
abbrev pub at : ℕ → ℕ → Issue → Bool
at repo number i = i.repo_id == repo && i.number == number

-- SELECT … FROM issues WHERE repo_id = ? AND number = ?
abbrev pub row_at : Tracker → ℕ → ℕ → Option Issue
row_at t repo number = select_first (at repo number) t.issues

-- SELECT 1 FROM issues WHERE repo_id = ? AND number = ?
abbrev pub issue_exists : Tracker → ℕ → ℕ → Bool
issue_exists t repo number = exists (at repo number) t.issues

-- state IN ('done','closed')
abbrev pub is_finished : IssueState → Bool
is_finished done = true
is_finished closed = true
is_finished _ = false

-- UNIQUE (repo_id, number)
abbrev pub HasUniqueNumbers : Tracker → Type 0
HasUniqueNumbers t = (repo number : ℕ) → count (at repo number) t.issues ≤ 1

-- Two keys (repo_id, number) that are not the same.
abbrev pub OtherKey : ℕ → ℕ → ℕ → ℕ → Type 0
OtherKey repo number r n = (r ≢ repo) ⊎ (n ≢ number)
