-- ===== src/Pulls/Examples.antt =====
-- Examples for pull requests: number 4 of repository 1 asks to merge `topic` into `main`. A commit of
-- the examples is a text, and a longer text stands for a later commit.
use Prim.Native.String.{◌++◌, len}
use text.Mathlib.TextPositions.{len-append}
use codefort.Base.{
  false, String, true, false, none, some, List, [], ◌∷◌, ◌≡◌, refl, ap, ◌↔◌, ◌⊎◌, leb, ◌==◌,
  string_eq, nat_eq, if◌then◌else◌, All, arith,
}
use codefort.Issues.{todo, Issue, Tracker, row_at}
use codefort.Pulls.{open_state, Pull, approved, Review}
use codefort.Pulls.Git.{
  Refs, exited, Git, Race, merge_method, rebase_method, do_merge, set_ref, merge_commit,
  parse_merge_tree, update_ref,
}
use codefort.Pulls.Git.Swap.{Attempt, do_merge-Attempt, GitLaws, do_merge_keeps_history}
use codefort.Pulls.Keywords.{codes}
use codefort.Pulls.Keywords.Mentions.{Names}
use codefort.Pulls.Merge.{Forge, review_gate_blocks, close_linked_issues}
use codefort.Pulls.Merge.Reviews.{Approved, Objected, review_gate_clear_iff}
use codefort.Pulls.Merge.Closing.{finished, close_linked_issues-row_at}
use codefort.Pulls.Stamps.{IsStamped, Call, edits, marks, perform_all, perform_all-IsStamped}

abbrev join : List String → String
join [] = ""
join (s ∷ ss) = s ++ join ss

abbrev small_git : Git
small_git = record {
  is_ancestor = λ a b. leb (len a) (len b);
  merge_tree = λ base ours theirs. exited 0 "tree";
  commit_tree = λ t message identity parents. some (join parents);
  commit_tree_as = λ t oid onto. some (onto ++ "+");
  rev_list = λ base head. some ((head ∷ base ∷ []) ∷ []);
}

some-injective : (a b : String) → some a ≡ some b → a ≡ b
some-injective a b e = ground arith

small_git-GitLaws : GitLaws small_git
small_git-GitLaws = record {
  ancestor_refl = λ a. ground arith;
  ancestor_trans = λ a b c p q. ground arith;
  commit_tree_parents = λ t message identity a b c e.
      let is = some-injective (a ++ (b ++ "")) c e in
      ground (arith, ap len is, len-append a (b ++ ""), len-append b "");
  commit_tree_as_parent = λ t oid onto c e.
      ground (arith, ap len (some-injective (onto ++ "+") c e), len-append onto "+");
}

abbrev alone : Race
alone = record { before = λ refs. refs; refused = false; after = λ refs. refs }

abbrev branches : Refs
branches name = if name == "main" then some "aaa" else if name == "topic" then some "aaaa" else none

abbrev pull : Pull
pull = record {
  id = 1;
  repo_id = 1;
  number = 4;
  base_ref = "main";
  head_ref = "topic";
  title = "Closes #9";
  body = "";
  author = "ann";
  state = open_state;
  created_at = 10;
  updated_at = 10;
  merged_at = none;
  merge_base_sha = none;
  merge_head_sha = none;
}

do_merge-Attempt_example :
    Attempt alone branches "main" "aaa"
      (do_merge small_git alone branches pull merge_method "4" "aaa" "aaaa" "ann")
do_merge-Attempt_example =
    do_merge-Attempt small_git alone branches pull merge_method "4" "aaa" "aaaa" "ann"

do_merge_keeps_history_example :
    (small_git.is_ancestor "aaa" "aaaaaaa" ≡ true)
    × ((merge_method ≡ rebase_method) ⊎ (small_git.is_ancestor "aaaa" "aaaaaaa" ≡ true))
unfolding do_merge merge_commit parse_merge_tree update_ref
do_merge_keeps_history_example =
    do_merge_keeps_history small_git small_git-GitLaws alone branches
      (set_ref branches "main" "aaaaaaa") pull merge_method "4" "aaa" "aaaa" "ann" "aaaaaaa" false
      refl

abbrev review : String → Review
review author = record {
  id = 1;
  repo_id = 1;
  pr_number = 4;
  author = author;
  state = approved;
  updated_at = 12;
}

abbrev linked : Issue
linked = record {
  id = 3;
  repo_id = 1;
  number = 9;
  title = "t";
  body = "";
  author = "ann";
  state = todo;
  assignee = none;
  claimed_at = none;
  parent_number = none;
  created_at = 5;
  updated_at = 5;
  labels = [];
}

abbrev tracker : Tracker
tracker = record { issues = linked ∷ []; next_id = 4; comments = []; dependencies = [] }

-- Approval is required, and bob approves.
abbrev forge : Forge
forge = record {
  pulls = record { rows = pull ∷ []; next_id = 2; reviews = review "bob" ∷ []; next_review = 2 };
  requires_approval = λ repo. some true;
  tracker = tracker;
  refs = branches;
  mirrored = [];
  builds = [];
  emitted = [];
}

review_gate_clear_iff_example : (review_gate_blocks forge 1 4 ≡ none) ↔ (
    (forge.requires_approval 1 ≡ some false)
    ⊎ ((forge.requires_approval 1 ≡ some true) × Approved forge 1 4 × (¬ Objected forge 1 4)))
review_gate_clear_iff_example = review_gate_clear_iff forge 1 4

close_linked_issues-row_at_example :
    (((pull.repo_id ≡ pull.repo_id) × Names false (codes (pull.title ++ (" " ++ pull.body))) 9)
      × (row_at (close_linked_issues tracker 20 1 pull) 1 9 ≡ some (finished 20 linked)))
    ⊎ ((¬ (
          (pull.repo_id ≡ pull.repo_id) × Names false (codes (pull.title ++ (" " ++ pull.body))) 9))
        × (row_at (close_linked_issues tracker 20 1 pull) 1 9 ≡ some linked))
close_linked_issues-row_at_example = close_linked_issues-row_at tracker 20 1 1 9 pull linked refl

-- The title is edited, the pull request is merged, and opened again.
abbrev calls : List Call
calls =
    edits 11 1 4 (some "new") none none
    ∷ marks 12 1 4 "aaa" "aaaa"
    ∷ edits 13 1 4 none none (some "open")
    ∷ []

perform_all-IsStamped_example :
    All IsStamped (perform_all small_git (λ s. s) calls forge.pulls).rows
perform_all-IsStamped_example =
    perform_all-IsStamped small_git (λ s. s) calls forge.pulls ((refl, refl, refl), tt)
