-- ===== src/Issues/Edit/Order.antt =====
-- The ids of the issues table, and what DeleteIssue leaves alone.
use codefort.Base.{
  ℕ, suc, ◌<◌, ◌≡◌, refl, subst, inl, inr, Bool, true, false, some, arith, ◌==◌, nat_eq, nat_beq,
  nat_beq_iff, Bool-cases, Option-cases, All, All-append, All-map, All-delete, All-update_key,
  Ascending, Ascending-append, Ascending-update, Ascending-delete, count-Ascending, update,
  select_first-delete, select_first_unique, select_first_test,
}
use codefort.Storage.{Result, ok, err, after, Result-cases}
use codefort.Issues.{Issue, Tracker, at, row_at, OtherKey}
use codefort.Issues.Edit.{
  CreateIssueRequest, IssuePatch, create_parent, create_issue, check_parent, no_fields, patch_row,
  update_issue, get_issue, delete_issue,
}

-- The rows are in id order, and an id is never given again.
abbrev pub IsOrdered : Tracker → Type 0
IsOrdered t = Ascending (λ i. i.id) t.issues × All (λ i. i.id < t.next_id) t.issues

-- The tracker after a deletion, which a failure leaves as it was.
abbrev pub deleted : Tracker → Result Tracker → Tracker
deleted t (ok t') = t'
deleted t (err e) = t

pub update-IsOrdered :
    (t : Tracker) (p : Issue → Bool) (f : Issue → Issue)
    → ((i : Issue) → (f i).id ≡ i.id)
    → IsOrdered t
    → IsOrdered (record t { issues = update p f t.issues })
update-IsOrdered t p f k o = (
  Ascending-update (λ i. i.id) p f t.issues k o.0,
  All-update_key (λ i. i.id) (λ n. n < t.next_id) p f t.issues k o.1,
)

pub create_issue-IsOrdered :
    (t : Tracker) (now repo : ℕ) (req : CreateIssueRequest)
    → IsOrdered t
    → IsOrdered (after t (create_issue t now repo req))
unfolding create_issue
create_issue-IsOrdered t now repo req o = elim (Result-cases (create_parent t repo req.parent)) [
  | inr (x, h) ↦ rw h o
  | inl (p, h) ↦ rw h (
    Ascending-append (λ i. i.id) t.issues _ o.0 o.1,
    All-append (λ i. i.id < suc t.next_id) t.issues _
        (All-map (λ i. i.id < t.next_id) (λ i. i.id < suc t.next_id) t.issues
          (λ i l. omega (arith, l)) o.1)
        (omega arith, tt),
  )
]

pub update_issue-IsOrdered :
    (t : Tracker) (now repo number : ℕ) (p : IssuePatch)
    → IsOrdered t
    → IsOrdered (after t (update_issue t now repo number p))
unfolding update_issue patch_row
update_issue-IsOrdered t now repo number p o =
    elim (Result-cases (check_parent t repo number p.parent)) [
      | inr (x, h) ↦ rw h o
      | inl (c, h) ↦ elim (Bool-cases (no_fields p)) [
        | inl f ↦ rw (h, f) o
        | inr f ↦ elim (Option-cases (row_at t repo number)) [
          | inl m ↦ rw (h, f, m) o
          | inr (row, m) ↦
              rw (h, f, m) (update-IsOrdered t (at repo number) (patch_row now p c) (λ i. refl) o)
        ]
      ]
    ]

pub delete_issue-IsOrdered :
    (t : Tracker) (repo number : ℕ)
    → IsOrdered t
    → IsOrdered (deleted t (delete_issue t repo number))
unfolding delete_issue get_issue
delete_issue-IsOrdered t repo number o = elim (Option-cases (row_at t repo number)) [
  | inl e ↦ rw e o
  | inr (row, e) ↦ rw e (
    Ascending-delete (λ i. i.id) (λ i. i.id == row.id) t.issues o.0,
    All-delete (λ i. i.id < t.next_id) (λ i. i.id == row.id) t.issues o.1,
  )
]

-- Two keys that are not the same name rows of different ids.
other_id :
    (t : Tracker) (repo number r n : ℕ) (row i : Issue)
    → IsOrdered t
    → OtherKey repo number r n
    → row_at t repo number ≡ some row
    → row_at t r n ≡ some i
    → (i.id == row.id) ≡ false
other_id t repo number r n row i o d e f = elim (Bool-cases (i.id == row.id)) [
  | inr h ↦ h
  | inl h ↦
      let one : i ≡ row =
        select_first_unique (at r n) (at repo number) (λ x. nat_beq x.id row.id) t.issues i row
          (count-Ascending (λ x. x.id) row.id t.issues o.0) f e h
          ((nat_beq_iff row.id row.id).1 refl) in
      let here : at r n row ≡ true =
        subst (λ x. at r n x ≡ true) one (select_first_test (at r n) t.issues i f) in
      let there = select_first_test (at repo number) t.issues row e in
      absurd (
        same_key d
          (ground (arith, here, there, nat_beq_iff row.repo_id r, nat_beq_iff row.repo_id repo))
          (ground (arith, here, there, nat_beq_iff row.number n, nat_beq_iff row.number number)))
]
  where
    same_key : {repo number r n : ℕ} → OtherKey repo number r n → r ≡ repo → n ≡ number → ⊥
    same_key (inl a) p q = a p
    same_key (inr a) p q = a q

pub delete_issue-row_at :
    (t : Tracker) (repo number r n : ℕ) (i : Issue)
    → IsOrdered t
    → OtherKey repo number r n
    → row_at t r n ≡ some i
    → row_at (deleted t (delete_issue t repo number)) r n ≡ some i
unfolding delete_issue get_issue
delete_issue-row_at t repo number r n i o d e = elim (Option-cases (row_at t repo number)) [
  | inl f ↦ rw f e
  | inr (row, f) ↦ rw f (
      select_first-delete (at r n) (λ x. x.id == row.id) t.issues i e
        (other_id t repo number r n row i o d f e))
]
