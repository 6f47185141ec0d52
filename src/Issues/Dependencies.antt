-- ===== src/Issues/Dependencies.antt =====
-- internal/storage/dependencies.go: depends-on edges between the issues of a repository.
pub mod Search
pub mod Acyclic
pub mod Examples
use codefort.Base.{
  ℕ, zero, suc, ◌+◌, Bool, true, false, not, ◌&&◌, ◌||◌, Option, none, some, List, [], ◌∷◌, ◌++◌,
  reverse, ◌==◌, nat_eq, if◌then◌else◌, contains, length, exists, delete,
}
use codefort.Storage.{Result, ok, err, self_dependency, dependency_cycle, invalid_input}
use codefort.Issues.{Dependency, Tracker, issue_exists}

-- SELECT depends_on_number FROM issue_dependencies WHERE repo_id = ? AND issue_number = ?
abbrev pub targets : List Dependency → ℕ → ℕ → List ℕ
targets [] repo n = []
targets (d ∷ ds) repo n =
    let rest = targets ds repo n in
    if d.repo_id == repo && d.issue_number == n then d.depends_on ∷ rest else rest

module _ (ds : List Dependency) (repo target : ℕ) where
  -- The loop of dependsOnReaches; the head of the list is the top of the stack. `none` means that
  -- the fuel ran out.
  pub walk : ℕ → List ℕ → List ℕ → Option Bool
  walk zero visited stack = none
  walk (suc fuel) visited [] = some false
  walk (suc fuel) visited (cur ∷ stack) =
      let skip = walk fuel visited stack in
      let visit = walk fuel (cur ∷ visited) (reverse (targets ds repo cur) ++ stack) in
      if cur == target then some true else if contains visited cur then skip else visit

-- Every edge is pushed once at most, and every round takes one entry off the stack.
abbrev pub rounds : List Dependency → ℕ
rounds ds = length ds + 2

pub depends_on_reaches : List Dependency → ℕ → ℕ → ℕ → Option Bool
depends_on_reaches ds repo from target = walk ds repo target (rounds ds) [] (from ∷ [])

abbrev pub same_edge : ℕ → ℕ → ℕ → Dependency → Bool
same_edge repo n m d = d.repo_id == repo && d.issue_number == n && d.depends_on == m

-- INSERT OR IGNORE under UNIQUE (repo_id, issue_number, depends_on_number)
pub insert_edge : List Dependency → ℕ → ℕ → ℕ → List Dependency
insert_edge ds repo n m =
    if exists (same_edge repo n m) ds
    then ds
    else ds ++ record { repo_id = repo; issue_number = n; depends_on = m } ∷ []

-- `none` means that the walk's fuel ran out.
pub add_dependency : Tracker → ℕ → ℕ → ℕ → Option (Result Tracker)
add_dependency t repo n m =
    if n == m
    then some (err self_dependency)
    else if not (issue_exists t repo n && issue_exists t repo m)
    then some (err invalid_input)
    else elim (depends_on_reaches t.dependencies repo m n) [
      | none ↦ none
      | some true ↦ some (err dependency_cycle)
      | some false ↦ some (ok (record t { dependencies = insert_edge t.dependencies repo n m }))
    ]

pub remove_dependency : Tracker → ℕ → ℕ → ℕ → Tracker
remove_dependency t repo n m = record t {
  dependencies = delete (same_edge repo n m) t.dependencies;
}

-- The edges that DeleteIssue clears, in either direction.
abbrev pub touches : ℕ → ℕ → Dependency → Bool
touches repo n d = d.repo_id == repo && (d.issue_number == n || d.depends_on == n)
