-- ===== src/Issues/Edit/Numbering.antt =====
-- The numbers that CreateIssue of internal/storage/issues.go gives.
use codefort.Base.{
  ℕ, suc, ◌+◌, ◌<◌, ◌≡◌, ◌≢◌, refl, ap, subst, ◌∙◌, sym, Bool, none, some, List, [], ◌∷◌, ◌++◌,
  arith, ◌==◌, nat_eq, nat_beq_iff, inl, inr, Bool-cases, Option-cases, All, select_first, delete,
  count, max_of, count-append, count-update, count-delete-le, count_above, select_first-append_none,
}
use codefort.Storage.{ok, after, Result-cases}
use codefort.Issues.{Issue, Tracker, at, row_at, HasUniqueNumbers}
use codefort.Issues.Edit.{
  CreateIssueRequest, IssuePatch, create_parent, create_issue, next_number, delete_issue,
  check_parent, no_fields, patch_row, update_issue,
}

-- No row of the repository has the number that is given next.
next_number-free : (t : Tracker) (repo : ℕ) → count (at repo (next_number t repo)) t.issues ≡ 0
next_number-free t repo =
    count_above (λ i. i.repo_id == repo) (at repo (next_number t repo)) (λ i. i.number)
      (next_number t repo) t.issues
      (λ i h. (ground arith, ground (arith, nat_beq_iff i.number (next_number t repo))))
      (omega arith)

none_of_count :
    {A : Type 0} (p : A → Bool) (xs : List A) → count p xs ≡ 0 → select_first p xs ≡ none
none_of_count p [] h = refl
none_of_count p (x ∷ xs) h = ground (arith, none_of_count p xs)

insert-HasUniqueNumbers :
    (t : Tracker) (row : Issue) (next : ℕ)
    → HasUniqueNumbers t
    → row.number ≡ next_number t row.repo_id
    → HasUniqueNumbers (record t { issues = t.issues ++ row ∷ []; next_id = next })
insert-HasUniqueNumbers t row next u e r n = elim (Bool-cases (at r n row)) [
  | inl h ↦ ground (
    arith,
    count-append (at r n) t.issues (row ∷ []),
    next_number-free t row.repo_id,
    nat_beq_iff row.repo_id r,
    nat_beq_iff row.number n,
  )
  | inr h ↦ ground (arith, count-append (at r n) t.issues (row ∷ []), u r n)
]

-- What a successful CreateIssue did.
record Created (t t' : Tracker) (repo : ℕ) (row : Issue) : Type 0 where
  repo_id : row.repo_id ≡ repo
  number : row.number ≡ next_number t repo
  id : row.id ≡ t.next_id
  appended : t' ≡ record t { issues = t.issues ++ row ∷ []; next_id = suc t.next_id }

create_issue-Created :
    (t t' : Tracker) (now repo : ℕ) (req : CreateIssueRequest) (row : Issue)
    → create_issue t now repo req ≡ ok (row, t')
    → Created t t' repo row
unfolding create_issue
create_issue-Created t t' now repo req row e =
    elim (Result-cases (create_parent t repo req.parent)) [
      | inl (p, h) ↦ ground arith
      | inr (x, h) ↦ absurd (ground arith)
    ]

-- When the numbers of each repository are unique and the call succeeds, the created issue gets a
-- number that no issue of the repository had, is found under it, and the numbers stay unique.
pub create_issue_fresh :
    (t t' : Tracker) (now repo : ℕ) (req : CreateIssueRequest) (row : Issue)
    → HasUniqueNumbers t
    → create_issue t now repo req ≡ ok (row, t')
    → (row_at t repo row.number ≡ none)
      × (row_at t' repo row.number ≡ some row)
      × HasUniqueNumbers t'
create_issue_fresh t t' now repo req row u e =
    let c = create_issue-Created t t' now repo req row e in
    let free : row_at t repo row.number ≡ none =
      none_of_count _ t.issues (rw c.number (next_number-free t repo)) in
    (
      free,
      rw c.appended (
          rw (select_first-append_none (at repo row.number) t.issues (row ∷ []) free) (
            ground
              (arith, c.repo_id, nat_beq_iff row.repo_id repo, nat_beq_iff row.number row.number))),
      subst HasUniqueNumbers (sym c.appended)
          (insert-HasUniqueNumbers t row (suc t.next_id) u (rw c.repo_id c.number)),
    )

update_issue-HasUniqueNumbers :
    (t : Tracker) (now repo number : ℕ) (p : IssuePatch)
    → HasUniqueNumbers t
    → HasUniqueNumbers (after t (update_issue t now repo number p))
unfolding update_issue patch_row
update_issue-HasUniqueNumbers t now repo number p u r n =
    elim (Result-cases (check_parent t repo number p.parent)) [
      | inr (x, h) ↦ rw h (u r n)
      | inl (c, h) ↦ elim (Bool-cases (no_fields p)) [
        | inl f ↦ rw (h, f) (u r n)
        | inr f ↦ elim (Option-cases (row_at t repo number)) [
          | inl m ↦ rw (h, f, m) (u r n)
          | inr (row, m) ↦
              rw (h, f, m)
                (omega (
                  arith,
                  u r n,
                  count-update (at r n) (at repo number) (patch_row now p c) t.issues (λ x. refl),
                ))
        ]
      ]
    ]

delete_issue-HasUniqueNumbers :
    (t t' : Tracker) (repo number : ℕ)
    → HasUniqueNumbers t
    → delete_issue t repo number ≡ ok t'
    → HasUniqueNumbers t'
unfolding delete_issue
delete_issue-HasUniqueNumbers t t' repo number u e r n =
    elim (Option-cases (row_at t repo number)) [
      | inl m ↦ absurd (ground arith)
      | inr (row, m) ↦
          ground (arith, u r n, count-delete-le (at r n) (λ (i : Issue). i.id == row.id) t.issues)
    ]

-- AUTOINCREMENT: every id is below the next one.
abbrev pub HasOldIds : Tracker → Type 0
HasOldIds t = All (λ i. i.id < t.next_id) t.issues

delete_last :
    (row : Issue) (xs : List Issue)
    → All (λ i. i.id < row.id) xs
    → delete (λ i. i.id == row.id) (xs ++ row ∷ []) ≡ xs
delete_last row [] h = ground (arith, nat_beq_iff row.id row.id)
delete_last row (x ∷ xs) h = ground (arith, nat_beq_iff x.id row.id, delete_last row xs h.1)

delete-undo :
    (t t' t'' : Tracker) (now repo : ℕ) (req : CreateIssueRequest) (row : Issue)
    → HasUniqueNumbers t
    → HasOldIds t
    → create_issue t now repo req ≡ ok (row, t')
    → delete_issue t' repo row.number ≡ ok t''
    → (t''.issues ≡ t.issues) × (t''.next_id ≡ suc t.next_id)
unfolding delete_issue
delete-undo t t' t'' now repo req row u ids e d =
    let c = create_issue-Created t t' now repo req row e in
    let there = (create_issue_fresh t t' now repo req row u e).1 in
    let dropped : t''.issues ≡ delete (λ i. i.id == row.id) t'.issues = ground (arith, there) in
    let gone : delete (λ i. i.id == row.id) (t.issues ++ row ∷ []) ≡ t.issues =
      delete_last row t.issues
        (subst (λ n. All (λ (i : Issue). i.id < n) t.issues) (sym c.id) ids) in
    (
      dropped
          ∙ ap (λ (s : Tracker). delete (λ (i : Issue). i.id == row.id) s.issues) c.appended
          ∙ gone,
      ground (arith, there, c.appended),
    )

-- When the numbers are unique and no id is yet to be given, deleting the issue that was created
-- last frees its number: the next issue created in the repository gets the same number and another
-- id.
pub number_reused :
    (t t' t'' t3 : Tracker) (now now' repo : ℕ) (req req' : CreateIssueRequest) (row row' : Issue)
    → HasUniqueNumbers t
    → HasOldIds t
    → create_issue t now repo req ≡ ok (row, t')
    → delete_issue t' repo row.number ≡ ok t''
    → create_issue t'' now' repo req' ≡ ok (row', t3)
    → (row'.number ≡ row.number) × (row'.id ≢ row.id)
number_reused t t' t'' t3 now now' repo req req' row row' u ids e d e' =
    let c = create_issue-Created t t' now repo req row e in
    let c' = create_issue-Created t'' t3 now' repo req' row' e' in
    let (same, next) = delete-undo t t' t'' now repo req row u ids e d in
    (
      c'.number
          ∙ ap (λ xs. max_of (λ (i : Issue). i.repo_id == repo) (λ i. i.number) xs + 1) same
          ∙ sym c.number,
      omega (arith, c.id, c'.id, next),
    )
