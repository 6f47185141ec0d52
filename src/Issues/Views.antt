-- ===== src/Issues/Views.antt =====
-- The computed views of internal/storage/issues.go: ready, blocked, epics and their progress.
pub mod Ready
pub mod Examples
use codefort.Base.{
  ℕ, suc, ◌≤◌, Bool, true, false, not, ◌&&◌, Option, none, some, List, [], ◌∷◌, ◌==◌, nat_eq,
  if◌then◌else◌, exists, count, select,
}
use codefort.Issues.{IssueState, todo, Issue, Dependency, Tracker, at, is_finished}

abbrev is_todo : IssueState → Bool
is_todo todo = true
is_todo _ = false

abbrev unassigned : Issue → Bool
unassigned i = elim i.assignee [ none ↦ true | some a ↦ false ]

-- hasUnmetDep: some depends-on target of the issue is there and not done or closed.
pub has_unmet_dep : Tracker → Issue → Bool
has_unmet_dep t i =
    exists
      (λ d.
        d.repo_id == i.repo_id
        && d.issue_number == i.number
        && exists (λ j. at d.repo_id d.depends_on j && not (is_finished j.state)) t.issues)
      t.dependencies

abbrev pub is_child_of : ℕ → ℕ → Issue → Bool
is_child_of repo number c =
    c.repo_id == repo && (elim c.parent_number [ none ↦ false | some p ↦ p == number ])

-- isEpic: some issue of the repository has it as its parent.
pub is_epic : Tracker → Issue → Bool
is_epic t i = exists (is_child_of i.repo_id i.number) t.issues

-- The two filters of appendReadyBlockedFilters.
pub is_ready : Tracker → Issue → Bool
is_ready t i = is_todo i.state && unassigned i && not (is_epic t i) && not (has_unmet_dep t i)

pub is_blocked : Tracker → Issue → Bool
is_blocked t i = is_todo i.state && not (is_epic t i) && has_unmet_dep t i

pub record EpicProgress : Type 0 where
  pub total : ℕ
  pub done : ℕ

-- The entry of ChildProgress for one parent: COUNT(*) and the sum over done or closed children.
pub child_progress : Tracker → ℕ → ℕ → EpicProgress
child_progress t repo number = record {
  total = count (is_child_of repo number) t.issues;
  done = count (λ c. is_child_of repo number c && is_finished c.state) t.issues;
}
