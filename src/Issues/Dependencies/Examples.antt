-- ===== src/Issues/Dependencies/Examples.antt =====
-- Examples for the dependency graph: issue 1 waits for 2, and 2 for 3.
use codefort.Base.{ℕ, ◌≡◌, refl, ◌⊎◌, true, false, none, some, List, [], ◌∷◌, arith}
use codefort.Storage.{ok, err, dependency_cycle}
use codefort.Issues.{todo, Issue, Dependency, Tracker}
use codefort.Issues.Dependencies.{walk, depends_on_reaches, insert_edge, add_dependency}
use codefort.Issues.Dependencies.Search.{Reach}
use codefort.Issues.Dependencies.Acyclic.{
  IsAcyclic, add_dependency_exact, add_dependency-IsAcyclic, depends_on_reaches_exact,
}

abbrev issue : ℕ → Issue
issue n = record {
  id = n;
  repo_id = 1;
  number = n;
  title = "t";
  body = "";
  author = "ann";
  state = todo;
  assignee = none;
  claimed_at = none;
  parent_number = none;
  created_at = 10;
  updated_at = 10;
  labels = [];
}

abbrev chain : List Dependency
chain =
    record { repo_id = 1; issue_number = 1; depends_on = 2 }
    ∷ record { repo_id = 1; issue_number = 2; depends_on = 3 }
    ∷ []

abbrev chained : Tracker
chained = record {
  issues = issue 1 ∷ issue 2 ∷ issue 3 ∷ [];
  next_id = 4;
  comments = [];
  dependencies = chain;
}

abbrev unlinked : Tracker
unlinked = record {
  issues = issue 1 ∷ issue 2 ∷ issue 3 ∷ [];
  next_id = 4;
  comments = [];
  dependencies = [];
}

abbrev linked : Tracker
linked = record unlinked {
  dependencies = record { repo_id = 1; issue_number = 1; depends_on = 2 } ∷ [];
}

add_dependency_exact_example :
    (Reach chain 1 1 3 × (add_dependency chained 1 3 1 ≡ some (err dependency_cycle)))
    ⊎ ((¬ Reach chain 1 1 3)
        × (add_dependency chained 1 3 1
            ≡ some (ok (record chained { dependencies = insert_edge chain 1 3 1 }))))
add_dependency_exact_example = add_dependency_exact chained 1 3 1 (omega arith) refl refl

no_edges : IsAcyclic []
no_edges repo u v r h = ground arith

add_dependency-IsAcyclic_example : IsAcyclic linked.dependencies
unfolding add_dependency depends_on_reaches walk insert_edge
add_dependency-IsAcyclic_example = add_dependency-IsAcyclic unlinked linked 1 1 2 no_edges refl

depends_on_reaches_exact_example :
    ((depends_on_reaches chain 1 1 3 ≡ some true) × Reach chain 1 1 3)
    ⊎ ((depends_on_reaches chain 1 1 3 ≡ some false) × (¬ Reach chain 1 1 3))
depends_on_reaches_exact_example = depends_on_reaches_exact chain 1 1 3
