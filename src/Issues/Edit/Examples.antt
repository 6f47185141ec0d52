-- ===== src/Issues/Edit/Examples.antt =====
-- Examples for creating and deleting issues: two issues are created in turn, with a deletion between.
use codefort.Base.{ℕ, ◌≡◌, refl, none, some, [], ◌∷◌, arith}
use codefort.Issues.{todo, Issue, Tracker, row_at, HasUniqueNumbers}
use codefort.Issues.Edit.{CreateIssueRequest, create_parent, create_issue}
use codefort.Issues.Edit.Numbering.{create_issue_fresh}

abbrev empty : Tracker
empty = record { issues = []; next_id = 7; comments = []; dependencies = [] }

abbrev request : CreateIssueRequest
request = record { title = "fix the parser"; body = ""; author = "ann"; parent = none; labels = [] }

abbrev issue : ℕ → ℕ → Issue
issue id now = record {
  id = id;
  repo_id = 1;
  number = 1;
  title = "fix the parser";
  body = "";
  author = "ann";
  state = todo;
  assignee = none;
  claimed_at = none;
  parent_number = none;
  created_at = now;
  updated_at = now;
  labels = [];
}

abbrev holding : Issue → ℕ → Tracker
holding i next = record { issues = i ∷ []; next_id = next; comments = []; dependencies = [] }

abbrev emptied : Tracker
emptied = record { issues = []; next_id = 8; comments = []; dependencies = [] }

empty-HasUniqueNumbers : HasUniqueNumbers empty
empty-HasUniqueNumbers r n = omega arith

create_issue_fresh_example :
    (row_at empty 1 1 ≡ none)
    × (row_at (holding (issue 7 50) 8) 1 1 ≡ some (issue 7 50))
    × HasUniqueNumbers (holding (issue 7 50) 8)
unfolding create_issue create_parent
create_issue_fresh_example =
    create_issue_fresh empty (holding (issue 7 50) 8) 50 1 request (issue 7 50)
      empty-HasUniqueNumbers refl
