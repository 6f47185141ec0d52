-- ===== src/Issues/Claims/Lock.antt =====
-- Claim and Unclaim of internal/storage/issues.go as a lock on one issue.
use codefort.Base.{
  ℕ, ◌+◌, ◌≤◌, ◌≡◌, ◌≢◌, refl, ◌⊎◌, inl, inr, String, true, false, ◌&&◌, Option, none, some, arith,
  ℤ, positive_seconds, ◌==◌, nat_eq, string_eq, nat_beq_iff, eq_iff, Bool-cases, Option-cases,
  if◌then◌else◌, select_first, update, count, select_first-update, select_first-update_other,
  count_unique, count_of_none, count-and-le, exists-select_first, exists_of_none, select_first_test,
}
use codefort.Storage.{ok, err, not_found, already_claimed, not_owner, after}
use codefort.Issues.{
  IssueState, Issue, Tracker, at, row_at, issue_exists, HasUniqueNumbers, OtherKey,
}
use codefort.Issues.Claims.{claimable, claim_row, claim, unclaim_row, unclaim, lapsed}

-- `caller` may take the issue: nobody holds it, the caller does, or the lease has run out.
abbrev pub IsAvailable : ℤ → ℕ → String → Issue → Type 0
IsAvailable lease now caller i =
    (i.assignee ≡ none)
    ⊎ (i.assignee ≡ some caller)
    ⊎ ((s : ℕ) × (c : ℕ) × (positive_seconds lease ≡ some s)
        × (i.claimed_at ≡ some c)
        × (c + s ≤ now))

lapsed_sound :
    (lease : ℤ) (now : ℕ) (i : Issue)
    → lapsed lease now i ≡ true
    → (s : ℕ) × (c : ℕ) × (positive_seconds lease ≡ some s)
      × (i.claimed_at ≡ some c)
      × (c + s ≤ now)
lapsed_sound lease now i h = elim (Option-cases (positive_seconds lease)) [
  | inl e ↦ absurd (ground arith)
  | inr (s, e) ↦ elim (Option-cases i.claimed_at) [
    | inl f ↦ absurd (ground arith)
    | inr (c, f) ↦ (s, c, e, f, ground arith)
  ]
]

IsClaimable-sound :
    (lease : ℤ) (now : ℕ) (caller : String) (i : Issue)
    → claimable lease now caller i ≡ true
    → IsAvailable lease now caller i
unfolding claimable
IsClaimable-sound lease now caller i h = elim (Bool-cases (lapsed lease now i)) [
  | inl e ↦ inr (inr (lapsed_sound lease now i e))
  | inr e ↦ elim (Option-cases i.assignee) [
    | inl n ↦ inl n
    | inr (a, o) ↦ inr (inl (ground (arith, eq_iff a caller)))
  ]
]

claimable_complete :
    (lease : ℤ) (now : ℕ) (caller : String) (i : Issue)
    → IsAvailable lease now caller i
    → claimable lease now caller i ≡ true
unfolding claimable
claimable_complete lease now caller i (inl n) = ground arith
claimable_complete lease now caller i (inr (inl o)) = ground (arith, eq_iff caller caller)
claimable_complete lease now caller i (inr (inr (s, c, e, f, h))) = ground arith

pub at-claim_row :
    (r n now : ℕ) (caller : String) (state : Option IssueState) (i : Issue)
    → at r n (claim_row now caller state i) ≡ at r n i
unfolding claim_row
at-claim_row r n now caller state i = refl

pub at-unclaim_row : (r n now : ℕ) (i : Issue) → at r n (unclaim_row now i) ≡ at r n i
unfolding unclaim_row
at-unclaim_row r n now i = refl

pub at_other :
    (repo number r n : ℕ) (i : Issue)
    → OtherKey repo number r n
    → at r n i ≡ true
    → at repo number i ≡ false
at_other repo number r n i (inl d) h =
    ground (arith, nat_beq_iff i.repo_id r, nat_beq_iff i.repo_id repo)
at_other repo number r n i (inr d) h =
    ground (arith, nat_beq_iff i.number n, nat_beq_iff i.number number)

-- The row that a caller gets at a time, in the state that was asked for or the old one.
abbrev pub taken_by : ℕ → String → Option IssueState → Issue → Issue
taken_by now caller state i = record {
  id = i.id;
  repo_id = i.repo_id;
  number = i.number;
  title = i.title;
  body = i.body;
  author = i.author;
  state = elim state [ none ↦ i.state | some s ↦ s ];
  assignee = some caller;
  claimed_at = some now;
  parent_number = i.parent_number;
  created_at = i.created_at;
  updated_at = now;
  labels = i.labels;
}

taken_by_claim :
    (now : ℕ) (caller : String) (state : Option IssueState) (i : Issue)
    → claim_row now caller state i ≡ taken_by now caller state i
unfolding claim_row
taken_by_claim now caller none i = refl
taken_by_claim now caller (some s) i = refl

-- The tracker after a claim that was granted.
abbrev pub claimed : Tracker → ℕ → ℕ → ℕ → String → Option IssueState → ℤ → Tracker
claimed t now repo number caller state lease = record t {
  issues =
      update (λ i. at repo number i && claimable lease now caller i) (claim_row now caller state)
        t.issues;
}

row_at-claimed :
    (t : Tracker) (now repo number : ℕ) (caller : String) (state : Option IssueState) (lease : ℤ)
    (i : Issue)
    → row_at t repo number ≡ some i
    → row_at (claimed t now repo number caller state lease) repo number
      ≡ some (
          if at repo number i && claimable lease now caller i
          then claim_row now caller state i
          else i)
row_at-claimed t now repo number caller state lease i e =
    select_first-update (at repo number) _ (claim_row now caller state) t.issues i
      (at-claim_row repo number now caller state) e

claim_granted :
    (t : Tracker) (now repo number : ℕ) (caller : String) (state : Option IssueState) (lease : ℤ)
    (i : Issue)
    → HasUniqueNumbers t
    → row_at t repo number ≡ some i
    → claimable lease now caller i ≡ true
    → claim t now repo number caller state lease
      ≡ ok (claim_row now caller state i, claimed t now repo number caller state lease)
unfolding claim
claim_granted t now repo number caller state lease i u e h = ground (
  arith,
  count_unique (at repo number) (claimable lease now caller) t.issues i (u repo number) e,
  row_at-claimed t now repo number caller state lease i e,
  select_first_test (at repo number) t.issues i e,
)

claim_refused :
    (t : Tracker) (now repo number : ℕ) (caller : String) (state : Option IssueState) (lease : ℤ)
    (i : Issue)
    → HasUniqueNumbers t
    → row_at t repo number ≡ some i
    → claimable lease now caller i ≡ false
    → claim t now repo number caller state lease ≡ err already_claimed
unfolding claim
claim_refused t now repo number caller state lease i u e h = ground (
  arith,
  count_unique (at repo number) (claimable lease now caller) t.issues i (u repo number) e,
  exists-select_first (at repo number) t.issues i e,
)

row_at-claimed_other :
    (t : Tracker) (now repo number : ℕ) (caller : String) (state : Option IssueState) (lease : ℤ)
    (r n : ℕ)
    → OtherKey repo number r n
    → row_at (claimed t now repo number caller state lease) r n ≡ row_at t r n
row_at-claimed_other t now repo number caller state lease r n d =
    select_first-update_other (at r n) _ (claim_row now caller state) t.issues
      (at-claim_row r n now caller state) (λ i h. ground (arith, at_other repo number r n i d h))

-- What holds before a claim and after its UPDATE holds after it.
pub claim_cases {ℓ} :
    (P : Tracker → Type ℓ) (t : Tracker) (now repo number : ℕ) (caller : String)
    (state : Option IssueState) (lease : ℤ)
    → P t
    → P (claimed t now repo number caller state lease)
    → P (after t (claim t now repo number caller state lease))
unfolding claim
claim_cases P t now repo number caller state lease refused granted =
    elim (Bool-cases
      (count (λ i. at repo number i && claimable lease now caller i) t.issues == 0)) [
        | inl h ↦ elim (Bool-cases (issue_exists t repo number)) [
          | inl f ↦ rw (h, f) refused
          | inr f ↦ rw (h, f) refused
        ]
        | inr h ↦
            elim (Option-cases
              (row_at (claimed t now repo number caller state lease) repo number)) [
                | inl f ↦ rw (h, f) refused
                | inr (i, f) ↦ rw (h, f) granted
              ]
      ]

-- When the numbers of each repository are unique, a claim on an existing issue is decided by
-- availability alone. If the issue is available to the caller, the call returns, and the table then
-- has, the row with the caller as its assignee, the call's time as its claim and update time, the
-- state that was asked for or else the old one, and the rest as it was, and every other issue keeps
-- its row; if not, the call is refused as already claimed.
pub claim_decides :
    (t : Tracker) (now repo number : ℕ) (caller : String) (state : Option IssueState) (lease : ℤ)
    (i : Issue)
    → HasUniqueNumbers t
    → row_at t repo number ≡ some i
    → (IsAvailable lease now caller i
        × (t' : Tracker) × (claim t now repo number caller state lease
            ≡ ok (taken_by now caller state i, t'))
        × (row_at t' repo number ≡ some (taken_by now caller state i))
        × ((r n : ℕ) → OtherKey repo number r n → row_at t' r n ≡ row_at t r n))
      ⊎ ((¬ IsAvailable lease now caller i)
          × (claim t now repo number caller state lease ≡ err already_claimed))
claim_decides t now repo number caller state lease i u e =
    elim (Bool-cases (claimable lease now caller i)) [
      | inl h ↦ inl (
        IsClaimable-sound lease now caller i h,
        claimed t now repo number caller state lease,
        rw (← taken_by_claim now caller state i)
            (claim_granted t now repo number caller state lease i u e h),
        ground (
          arith,
          row_at-claimed t now repo number caller state lease i e,
          select_first_test (at repo number) t.issues i e,
          taken_by_claim now caller state i,
        ),
        row_at-claimed_other t now repo number caller state lease,
      )
      | inr h ↦ inr (
        λ a. cc (claimable_complete lease now caller i a),
        claim_refused t now repo number caller state lease i u e h,
      )
    ]

-- A claim on an issue that is not there is ErrNotFound.
pub claim_missing :
    (t : Tracker) (now repo number : ℕ) (caller : String) (state : Option IssueState) (lease : ℤ)
    → row_at t repo number ≡ none
    → claim t now repo number caller state lease ≡ err not_found
unfolding claim
claim_missing t now repo number caller state lease e = ground (
  arith,
  count_of_none (at repo number) t.issues e,
  count-and-le (at repo number) (claimable lease now caller) t.issues,
  exists_of_none (at repo number) t.issues e,
)

row_at-released :
    (t : Tracker) (now repo number : ℕ) (i : Issue)
    → row_at t repo number ≡ some i
    → select_first (at repo number) (update (at repo number) (unclaim_row now) t.issues)
      ≡ some (unclaim_row now i)
row_at-released t now repo number i e = ground (
  arith,
  select_first-update (at repo number) (at repo number) (unclaim_row now) t.issues i
      (at-unclaim_row repo number now) e,
  select_first_test (at repo number) t.issues i e,
)

-- Unclaim on every branch: only the holder clears a claim, a free issue stays as it is.
pub unclaim_decides :
    (t : Tracker) (now repo number : ℕ) (caller : String)
    → ((row_at t repo number ≡ none) × (unclaim t now repo number caller ≡ err not_found))
      ⊎ ((i : Issue) × (row_at t repo number ≡ some i)
          × (((i.assignee ≡ none) × (unclaim t now repo number caller ≡ ok (i, t)))
              ⊎ ((i.assignee ≢ none)
                  × (i.assignee ≢ some caller)
                  × (unclaim t now repo number caller ≡ err not_owner))
              ⊎ ((i.assignee ≡ some caller)
                  × (t' : Tracker) × (unclaim t now repo number caller ≡ ok (unclaim_row now i, t'))
                  × (row_at t' repo number ≡ some (unclaim_row now i))
                  × ((r n : ℕ) → OtherKey repo number r n → row_at t' r n ≡ row_at t r n))))
unfolding unclaim
unclaim_decides t now repo number caller = elim (Option-cases (row_at t repo number)) [
  | inl e ↦ inl (e, ground arith)
  | inr (i, e) ↦ inr (
    i,
    e,
    elim (Option-cases i.assignee) [
      | inl n ↦ inl (n, ground arith)
      | inr (a, h) ↦ elim (Bool-cases (a == caller)) [
        | inl own ↦ inr (
            inr (
              ground (arith, eq_iff a caller),
              record t { issues = update (at repo number) (unclaim_row now) t.issues },
              ground arith,
              row_at-released t now repo number i e,
              λ r n d.
                  select_first-update_other (at r n) (at repo number) (unclaim_row now) t.issues
                    (at-unclaim_row r n now) (λ j. at_other repo number r n j d),
            ))
        | inr other ↦ inr (inl (λ n. cc, λ o. ground (arith, eq_iff a caller), ground arith))
      ]
    ],
  )
]
