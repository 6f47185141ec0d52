-- ===== src/Issues/Edit.antt =====
-- CreateIssue, GetIssue, DeleteIssue and UpdateIssue of internal/storage/issues.go.
pub mod Consistency
pub mod Numbering
pub mod Order
pub mod States
pub mod Examples
use codefort.Base.{
  ℕ, suc, ◌+◌, String, Bool, true, false, ◌&&◌, not, Option, none, some, List, [], ◌∷◌, ◌++◌, ℤ,
  pos, negsuc, is_positive, ◌==◌, nat_eq, if◌then◌else◌, select_first, update, delete, exists,
  max_of,
}
use codefort.Storage.{Result, ok, err, ◌>>=◌, found, not_found, invalid_input, no_update_fields}
use codefort.Issues.{
  IssueState, todo, Issue, Comment, Dependency, Tracker, at, row_at, issue_exists,
}
use codefort.Issues.Dependencies.{touches}

pub record CreateIssueRequest : Type 0 where
  pub title : String
  pub body : String
  pub author : String
  pub parent : Option ℤ
  pub labels : List String

-- SELECT COALESCE(MAX(number), 0) + 1 FROM issues WHERE repo_id = ?
abbrev pub next_number : Tracker → ℕ → ℕ
next_number t repo = max_of (λ i. i.repo_id == repo) (λ i. i.number) t.issues + 1

-- `req.Parent != nil && *req.Parent > 0`: the parent must exist in the repository.
create_parent : Tracker → ℕ → Option ℤ → Result (Option ℕ)
create_parent t repo none = ok none
create_parent t repo (some (negsuc p)) = ok none
create_parent t repo (some (pos p)) =
    if p == 0 then ok none else if issue_exists t repo p then ok (some p) else err invalid_input

pub create_issue : Tracker → ℕ → ℕ → CreateIssueRequest → Result (Issue × Tracker)
unfolding create_parent
create_issue t now repo req = do
  parent ← create_parent t repo req.parent
  let row : Issue = record {
    id = t.next_id;
    repo_id = repo;
    number = next_number t repo;
    title = req.title;
    body = req.body;
    author = req.author;
    state = todo;
    assignee = none;
    claimed_at = none;
    parent_number = parent;
    created_at = now;
    updated_at = now;
    labels = req.labels;
  }
  ok (row, record t { issues = t.issues ++ row ∷ []; next_id = suc t.next_id })

pub get_issue : Tracker → ℕ → ℕ → Result Issue
get_issue t repo number = found (row_at t repo number) not_found

-- Comments and edges first, then the row; there is no foreign key on parent_number.
pub delete_issue : Tracker → ℕ → ℕ → Result Tracker
unfolding get_issue
delete_issue t repo number = do
  row ← get_issue t repo number
  ok (record t {
    comments = delete (λ c. c.issue_id == row.id) t.comments;
    dependencies = delete (touches repo number) t.dependencies;
    issues = delete (λ i. i.id == row.id) t.issues;
  })

-- The optional fields of UpdateIssue; `none` is a nil pointer.
pub record IssuePatch : Type 0 where
  pub state : Option IssueState
  pub title : Option String
  pub body : Option String
  pub parent : Option ℤ
  pub labels : Option (List String)

-- What the parent argument asks for, once it is validated.
pub data ParentChange : Type 0 where
  keep clear : ParentChange
  assign : ℕ → ParentChange

check_parent : Tracker → ℕ → ℕ → Option ℤ → Result ParentChange
check_parent t repo number none = ok keep
check_parent t repo number (some (negsuc p)) = err invalid_input
check_parent t repo number (some (pos p)) =
    if p == 0
    then ok clear
    else if not (issue_exists t repo p)
    then err invalid_input
    else if p == number
    then err invalid_input
    else ok (assign p)

abbrev or_old {ℓ} : {A : Type ℓ} → Option A → A → A
or_old none old = old
or_old (some new) old = new

new_parent : ParentChange → Option ℕ → Option ℕ
new_parent keep old = old
new_parent clear old = none
new_parent (assign p) old = some p

abbrev is_none {ℓ} : {A : Type ℓ} → Option A → Bool
is_none none = true
is_none (some a) = false

-- Only updated_at would be written.
no_fields : IssuePatch → Bool
no_fields p =
    is_none p.state && is_none p.title && is_none p.body && is_none p.parent && is_none p.labels

patch_row : ℕ → IssuePatch → ParentChange → Issue → Issue
unfolding new_parent
patch_row now p parent i = record i {
  updated_at = now;
  state = or_old p.state i.state;
  title = or_old p.title i.title;
  body = or_old p.body i.body;
  parent_number = new_parent parent i.parent_number;
  labels = or_old p.labels i.labels;
}

-- UPDATE … WHERE repo_id = ? AND number = ? RETURNING: no row is ErrNotFound.
pub update_issue : Tracker → ℕ → ℕ → ℕ → IssuePatch → Result (Issue × Tracker)
unfolding check_parent no_fields patch_row
update_issue t now repo number p = do
  parent ← check_parent t repo number p.parent
  if no_fields p then err no_update_fields else do
    row ← found (row_at t repo number) not_found
    ok (
      patch_row now p parent row,
      record t { issues = update (at repo number) (patch_row now p parent) t.issues },
    )
