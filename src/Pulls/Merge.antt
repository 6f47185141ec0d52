-- ===== src/Pulls/Merge.antt =====
-- internal/server/merge.go: handleMergePull with its review gate and the closing of linked issues,
-- and autoCloseMergedPRs of ci_hook.go.
pub mod Landing
pub mod Reviews
pub mod Closing
use Prim.Native.String.{◌++◌}
use mathlib.Core.List
use codefort.Base.{
  ℕ, suc, String, Bool, true, false, not, Option, none, some, List, [], ◌∷◌, ◌==◌, nat_eq,
  string_eq, if◌then◌else◌, contains,
}
use codefort.Storage.{Result, ok, err, after}
use codefort.Issues.{IssueState, done as issue_done, Tracker}
use codefort.Issues.Edit.{IssuePatch, update_issue}
use codefort.Issues.Edit.States.{state_only}
use codefort.Pulls.{
  PullState, open_state, merged, closed, is_open, Pull, Pulls, Verdict, approved, changes_requested,
  Review, get_pull, mark_merged, list_reviews, open_prs_for_base,
}
use codefort.Pulls.Keywords.{closing_matches}
use codefort.Pulls.Git.{
  Refs, Git, Race, MergeError, nothing_to_rebase, not_fast_forward, base_moved, git_failed, Merge,
  done, conflicted, failed, MergeMethod, merge_method, ff_only_method, rebase_method, do_merge,
}

-- A call of emitPull: the event's type, its repository, its actor and the pull request.
pub record Emitted : Type 0 where
  pub event_type : String
  pub repo_id : ℕ
  pub actor : String
  pub pull : Pull

-- The tables, the branches of the repository's bare clone, and the calls of mirrorMergedBranch,
-- enqueueRefRun and emitPull, the newest first. `requires_approval` is the column of each repository, none without a row.
pub record Forge : Type 0 where
  pub pulls : Pulls
  pub requires_approval : ℕ → Option Bool
  pub tracker : Tracker
  pub refs : Refs
  pub mirrored : List String
  pub builds : List (String × String)
  pub emitted : List Emitted

pub data Reply : Type 0 where
  refused : ℕ → String → Reply
  conflict : List String → Reply
  landed : Pull → String → Bool → Reply

-- The loop over the reviews: the message of a refusal.
review_loop : List Review → ℕ → Option String
review_loop [] approvals =
    if approvals == 0
    then some "this repository requires an approving review before merge"
    else none
review_loop (r ∷ rs) approvals = elim r.state [
  | changes_requested ↦
      some ("changes requested by " ++ (r.author ++ "; resolve it before merging"))
  | approved ↦ review_loop rs (suc approvals)
]

unfoldable pub review_gate_blocks : Forge → ℕ → ℕ → Option String
unfolding review_loop
review_gate_blocks f repo number = elim (f.requires_approval repo) [
  | none ↦ some "cannot verify the repo's review requirement; merge refused"
  | some false ↦ none
  | some true ↦ review_loop (list_reviews f.pulls repo number) 0
]

-- parseClosingRefs: the numbers that are read, each once, in the order of their first match.
distinct : List ℕ → List (Option ℕ) → List ℕ
distinct seen [] = []
distinct seen (none ∷ ms) = distinct seen ms
distinct seen (some n ∷ ms) = elim (contains seen n) [
  | true ↦ distinct seen ms
  | false ↦ n ∷ distinct (n ∷ seen) ms
]

unfoldable pub parse_closing_refs : String → List ℕ
unfolding distinct
parse_closing_refs text = distinct [] (closing_matches text)

abbrev pub to_done : IssuePatch
to_done = state_only issue_done

unfoldable pub close_issues : Tracker → ℕ → ℕ → List ℕ → Tracker
close_issues t now repo [] = t
close_issues t now repo (n ∷ ns) =
    close_issues (after t (update_issue t now repo n to_done)) now repo ns

unfoldable pub close_linked_issues : Tracker → ℕ → ℕ → Pull → Tracker
close_linked_issues t now repo p =
    close_issues t now repo (parse_closing_refs (p.title ++ (" " ++ p.body)))

abbrev pub state_name : PullState → String
state_name open_state = "open"
state_name merged = "merged"
state_name closed = "closed"

unfoldable pub merge_method_of : String → Option MergeMethod
merge_method_of m =
    if m == ""
    then some merge_method
    else if m == "merge"
    then some merge_method
    else if m == "ff-only"
    then some ff_only_method
    else if m == "rebase"
    then some rebase_method
    else none

module _ (git : Git) (race : Race) (now : ℕ) (identity decimal : String) where
  -- What follows a merge: the row, the mirror, the linked issues, for a ref that this call
  -- moved the build, and the event.
  land : Forge → ℕ → Pull → String → String → String → Bool → String → Bool → Forge × Reply
  land f repo p base_sha head_sha tip ff trouble builds =
      elim (mark_merged f.pulls now repo p.number base_sha head_sha) [
        | err e ↦ (f, refused 500 trouble)
        | ok (updated, pulls) ↦ (
          record f {
            pulls = pulls;
            mirrored = p.base_ref ∷ f.mirrored;
            tracker = close_linked_issues f.tracker now repo p;
            builds = if builds then (p.base_ref, tip) ∷ f.builds else f.builds;
            emitted =
                record {
                  event_type = "pull.merged";
                  repo_id = repo;
                  actor = identity;
                  pull = updated;
                }
                ∷ f.emitted;
          },
          landed updated tip ff,
        )
      ]

  merge_error : MergeError → Reply
  merge_error nothing_to_rebase =
      refused 409 "nothing to rebase; the head branch adds only merge commits over base"
  merge_error not_fast_forward =
      refused 409 "not fast-forwardable; use method \"merge\" or \"rebase\""
  merge_error base_moved = refused 409 "base branch moved during merge; retry"
  merge_error git_failed = refused 500 "merge failed"

  settle_merge : Forge → ℕ → Pull → String → String → Refs × Merge → Forge × Reply
  settle_merge f repo p base_tip head_tip (refs, done tip ff) =
      land (record f { refs = refs }) repo p base_tip head_tip tip ff
        "merged refs but failed to update PR state" true
  settle_merge f repo p base_tip head_tip (refs, conflicted ps) =
      (record f { refs = refs }, conflict ps)
  settle_merge f repo p base_tip head_tip (refs, failed e) =
      (record f { refs = refs }, merge_error e)

  merge_tips : Forge → ℕ → Pull → MergeMethod → String → String → Forge × Reply
  merge_tips f repo p method base_tip head_tip =
      if git.is_ancestor head_tip base_tip
      then land f repo p head_tip head_tip base_tip true "failed to update PR state" false
      else settle_merge f repo p base_tip head_tip
          (do_merge git race f.refs p method decimal base_tip head_tip identity)

  merge_open : Forge → ℕ → Pull → MergeMethod → Forge × Reply
  merge_open f repo p method = elim (f.refs p.base_ref) [
    | none ↦ (f, refused 409 ("base branch no longer exists: " ++ p.base_ref))
    | some base_tip ↦ elim (f.refs p.head_ref) [
      | none ↦ (f, refused 409 ("head branch no longer exists: " ++ p.head_ref))
      | some head_tip ↦ merge_tips f repo p method base_tip head_tip
    ]
  ]

  -- The number and the body are decoded and the repository is found.
  pub handle_merge_pull : Forge → ℕ → ℕ → String → Forge × Reply
  handle_merge_pull f repo number method = elim (merge_method_of method) [
    | none ↦ (f, refused 400 ("invalid method: " ++ method))
    | some m ↦ elim (get_pull f.pulls repo number) [
      | err e ↦ (f, refused 404 "pull request not found")
      | ok p ↦
          if not (is_open p.state)
          then (f, refused 409 ("pull request is " ++ (state_name p.state ++ ", not open")))
          else elim (review_gate_blocks f repo number) [
            | some message ↦ (f, refused 409 message)
            | none ↦ merge_open f repo p m
          ]
    ]
  ]

-- autoCloseMergedPRs: the open pull requests whose head is contained in the new base are marked.
unfoldable pub auto_close_one : Git → Refs → ℕ → ℕ → String → String → Pull → Pulls → Pulls
auto_close_one git refs now repo old_base new_base p t = elim (refs p.head_ref) [
  | none ↦ t
  | some head ↦
      if git.is_ancestor head new_base
      then after t (mark_merged t now repo p.number old_base head)
      else t
]

unfoldable pub auto_close_each : Git → Refs → ℕ → ℕ → String → String → List Pull → Pulls → Pulls
auto_close_each git refs now repo old_base new_base [] t = t
auto_close_each git refs now repo old_base new_base (p ∷ ps) t =
    auto_close_each git refs now repo old_base new_base ps
      (auto_close_one git refs now repo old_base new_base p t)

unfoldable pub auto_close_merged_prs : Git → Refs → Pulls → ℕ → ℕ → String → String → String → Pulls
auto_close_merged_prs git refs t now repo base old_base new_base =
    auto_close_each git refs now repo old_base new_base (open_prs_for_base t repo base) t
