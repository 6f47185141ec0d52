-- ===== src/Issues/Claims.antt =====
-- Claim, Unclaim and ExpireClaims of internal/storage/issues.go: the claim on an issue as a lock
-- with a lease.
pub mod Lock
pub mod Lease
pub mod Examples
use codefort.Base.{
  ℕ, zero, ◌+◌, String, Bool, true, false, not, ◌&&◌, ◌||◌, Option, none, some, List, ℤ,
  positive_seconds, leb, ◌==◌, nat_eq, string_eq, if◌then◌else◌, select_first, update, count,
}
use codefort.Storage.{Result, ok, err, ◌>>=◌, found, not_found, already_claimed, not_owner}
use codefort.Issues.{IssueState, Issue, Tracker, at, row_at, issue_exists, is_finished}

-- claimed_at <= strftime('%s','now') - lease; a NULL claimed_at is not.
abbrev pub expired : ℕ → ℕ → Option ℕ → Bool
expired now lease none = false
expired now lease (some c) = leb (c + lease) now

-- assignee IS NULL OR assignee = ?
abbrev pub free_or_own : Option String → String → Bool
free_or_own none caller = true
free_or_own (some a) caller = a == caller

-- The expiry clause is there only for a positive lease.
abbrev pub lapsed : ℤ → ℕ → Issue → Bool
lapsed lease now i = elim (positive_seconds lease) [
  | none ↦ false
  | some s ↦ expired now s i.claimed_at
]

pub claimable : ℤ → ℕ → String → Issue → Bool
claimable lease now caller i = free_or_own i.assignee caller || lapsed lease now i

abbrev state_or : Option IssueState → IssueState → IssueState
state_or none old = old
state_or (some new) old = new

pub claim_row : ℕ → String → Option IssueState → Issue → Issue
claim_row now caller state i = record i {
  assignee = some caller;
  claimed_at = some now;
  updated_at = now;
  state = state_or state i.state;
}

-- One UPDATE whose WHERE clause is the lock; with no row changed, a missing issue is told from a
-- live claim held by someone else.
pub claim : Tracker → ℕ → ℕ → ℕ → String → Option IssueState → ℤ → Result (Issue × Tracker)
claim t now repo number caller state lease =
    let where_clause = λ (i : Issue). at repo number i && claimable lease now caller i in
    let t' : Tracker = record t {
      issues = update where_clause (claim_row now caller state) t.issues;
    } in
    if count where_clause t.issues == 0
    then if issue_exists t repo number then err already_claimed else err not_found
    else do row ← found (row_at t' repo number) not_found; ok (row, t')

pub unclaim_row : ℕ → Issue → Issue
unclaim_row now i = record i { assignee = none; claimed_at = none; updated_at = now }

pub unclaim : Tracker → ℕ → ℕ → ℕ → String → Result (Issue × Tracker)
unclaim t now repo number caller = do
  cur ← found (row_at t repo number) not_found
  elim cur.assignee [
    | none ↦ ok (cur, t)
    | some owner ↦
        if not (owner == caller)
        then err not_owner
        else ok (
          unclaim_row now cur,
          record t { issues = update (at repo number) (unclaim_row now) t.issues },
        )
  ]

abbrev is_some {ℓ} : {A : Type ℓ} → Option A → Bool
is_some none = false
is_some (some a) = true

-- assignee IS NOT NULL AND state NOT IN ('done','closed') AND claimed_at <= now - lease
pub stale : ℕ → ℕ → Issue → Bool
stale seconds now i =
    is_some i.assignee && not (is_finished i.state) && expired now seconds i.claimed_at

-- The claims released, and how many.
pub expire_claims : Tracker → ℕ → ℤ → ℕ × Tracker
expire_claims t now lease = elim (positive_seconds lease) [
  | none ↦ (0, t)
  | some s ↦ (
    count (stale s now) t.issues,
    record t { issues = update (stale s now) (unclaim_row now) t.issues },
  )
]
