-- ===== src/Issues/Views/Examples.antt =====
-- Examples for the views: an epic with one child that is still open.
use codefort.Base.{ℕ, Option, none, some, [], ◌∷◌, arith}
use codefort.Issues.{todo, Issue, Tracker}
use codefort.Issues.Views.Ready.{HasNoChild}

abbrev issue : ℕ → Option ℕ → Issue
issue n parent = record {
  id = n;
  repo_id = 1;
  number = n;
  title = "t";
  body = "";
  author = "ann";
  state = todo;
  assignee = none;
  claimed_at = none;
  parent_number = parent;
  created_at = 10;
  updated_at = 10;
  labels = [];
}

abbrev epic : Tracker
epic = record {
  issues = issue 1 none ∷ issue 2 (some 1) ∷ [];
  next_id = 3;
  comments = [];
  dependencies = record { repo_id = 1; issue_number = 2; depends_on = 1 } ∷ [];
}

childless : HasNoChild epic (issue 2 (some 1))
childless = ((λ r h. ground arith), ((λ r h. ground arith), tt))
