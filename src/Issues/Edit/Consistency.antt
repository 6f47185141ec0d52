-- ===== src/Issues/Edit/Consistency.antt =====
-- What CreateIssue and UpdateIssue leave alone: the other rows, and every claim.
use codefort.Base.{
  ℕ, ◌≡◌, refl, some, Option-cases, Bool-cases, inl, inr, select_first-append, select_first-update,
  update,
}
use codefort.Storage.{after, Result-cases}
use codefort.Issues.{Issue, Tracker, at, row_at}
use codefort.Issues.Edit.{
  CreateIssueRequest, IssuePatch, ParentChange, create_parent, create_issue, check_parent,
  no_fields, patch_row, update_issue,
}

-- Both calls keep the claim of the issue at a key: `j` is held as `i` was.
abbrev pub SameClaim : Issue → Issue → Type 0
SameClaim i j = (j.assignee ≡ i.assignee) × (j.claimed_at ≡ i.claimed_at)

pub create_issue-row_at :
    (t : Tracker) (now repo : ℕ) (req : CreateIssueRequest) (r n : ℕ) (i : Issue)
    → row_at t r n ≡ some i
    → row_at (after t (create_issue t now repo req)) r n ≡ some i
unfolding create_issue
create_issue-row_at t now repo req r n i e = elim (Result-cases (create_parent t repo req.parent)) [
  | inl (p, h) ↦ rw h (select_first-append (at r n) t.issues _ i e)
  | inr (x, h) ↦ rw h e
]

at-patch_row :
    (r n now : ℕ) (p : IssuePatch) (c : ParentChange) (i : Issue)
    → at r n (patch_row now p c i) ≡ at r n i
unfolding patch_row
at-patch_row r n now p c i = refl

patch_row-SameClaim :
    (now : ℕ) (p : IssuePatch) (c : ParentChange) (i : Issue) → SameClaim i (patch_row now p c i)
unfolding patch_row
patch_row-SameClaim now p c i = (refl, refl)

updated-SameClaim :
    (t : Tracker) (now : ℕ) (p : IssuePatch) (c : ParentChange) (repo number r n : ℕ) (i : Issue)
    → row_at t r n ≡ some i
    → (j : Issue) × (row_at
          (record t { issues = update (at repo number) (patch_row now p c) t.issues })
          r
          n
        ≡ some j)
      × SameClaim i j
updated-SameClaim t now p c repo number r n i e =
    let found_it =
      select_first-update (at r n) (at repo number) (patch_row now p c) t.issues i
        (at-patch_row r n now p c) e in
    elim (Bool-cases (at repo number i)) [
      | inl h ↦ (patch_row now p c i, rw h at found_it, patch_row-SameClaim now p c i)
      | inr h ↦ (i, rw h at found_it, (refl, refl))
    ]

pub update_issue-row_at :
    (t : Tracker) (now repo number : ℕ) (p : IssuePatch) (r n : ℕ) (i : Issue)
    → row_at t r n ≡ some i
    → (j : Issue) × (row_at (after t (update_issue t now repo number p)) r n ≡ some j)
      × SameClaim i j
unfolding update_issue
update_issue-row_at t now repo number p r n i e =
    elim (Result-cases (check_parent t repo number p.parent)) [
      | inr (x, h) ↦ rw h (i, e, (refl, refl))
      | inl (c, h) ↦ elim (Bool-cases (no_fields p)) [
        | inl f ↦ rw (h, f) (i, e, (refl, refl))
        | inr f ↦ elim (Option-cases (row_at t repo number)) [
          | inl m ↦ rw (h, f, m) (i, e, (refl, refl))
          | inr (row, m) ↦ rw (h, f, m) (updated-SameClaim t now p c repo number r n i e)
        ]
      ]
    ]
