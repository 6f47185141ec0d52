-- ===== src/Issues/Edit/States.antt =====
-- UpdateIssue with a state alone, as the merge of a pull request calls it.
use codefort.Base.{
  ℕ, none, some, ◌≡◌, refl, ◌∙◌, inl, inr, nat_eq, nat_beq_iff, Option-cases, update,
  select_first-update, select_first-update_other, select_first_test, arith,
}
use codefort.Storage.{after}
use codefort.Issues.{IssueState, Issue, Tracker, OtherKey, at, row_at}
use codefort.Issues.Edit.{IssuePatch, keep, patch_row, check_parent, no_fields, update_issue}

abbrev pub state_only : IssueState → IssuePatch
state_only s = record { state = some s; title = none; body = none; parent = none; labels = none }

written :
    (t : Tracker) (now repo n : ℕ) (s : IssueState) (i : Issue)
    → row_at t repo n ≡ some i
    → after t (update_issue t now repo n (state_only s))
      ≡ record t { issues = update (at repo n) (patch_row now (state_only s) keep) t.issues }
unfolding update_issue check_parent no_fields
written t now repo n s i e = rw (update_issue, e) refl

pub row_at-update_issue :
    (t : Tracker) (now repo n : ℕ) (s : IssueState) (i : Issue)
    → row_at t repo n ≡ some i
    → row_at (after t (update_issue t now repo n (state_only s))) repo n
      ≡ some (record i { state = s; updated_at = now })
unfolding patch_row
row_at-update_issue t now repo n s i e = rw (written t now repo n s i e) (
    select_first-update (at repo n) (at repo n) (patch_row now (state_only s) keep) t.issues i
      (λ x. refl) e
    ∙ rw (select_first_test (at repo n) t.issues i e) refl)

pub row_at-update_issue_other :
    (t : Tracker) (now repo n r m : ℕ) (s : IssueState)
    → OtherKey repo n r m
    → row_at (after t (update_issue t now repo n (state_only s))) r m ≡ row_at t r m
unfolding update_issue patch_row check_parent no_fields
row_at-update_issue_other t now repo n r m s d = elim (Option-cases (row_at t repo n)) [
  | inl e ↦ rw (update_issue, e) refl
  | inr (i, e) ↦ rw (written t now repo n s i e) (
      select_first-update_other (at r m) (at repo n) (patch_row now (state_only s) keep) t.issues
        (λ x. refl) (λ x h. ground (arith, nat_beq_iff x.repo_id repo, nat_beq_iff x.number n)))
]
