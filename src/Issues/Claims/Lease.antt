-- ===== src/Issues/Claims/Lease.antt =====
-- The lease of a claim (internal/storage/issues.go) over sequences of calls.
use codefort.Base.{
  refl, ℕ, ◌+◌, ◌<◌, ◌≡◌, ◌≢◌, ◌∙◌, inl, inr, String, true, false, ◌&&◌, Option, some, List, [],
  ◌∷◌, arith, ℤ, positive_seconds, ◌==◌, nat_eq, string_eq, nat_beq_iff, eq_iff, Bool-cases,
  Option-cases, All, select_first-update, select_first_test,
}
use codefort.Storage.{after}
use codefort.Issues.{IssueState, Issue, Tracker, at, row_at, OtherKey}
use codefort.Issues.Edit.{CreateIssueRequest, IssuePatch, create_issue, update_issue, delete_issue}
use codefort.Issues.Edit.Order.{
  IsOrdered, deleted, update-IsOrdered, create_issue-IsOrdered, update_issue-IsOrdered,
  delete_issue-IsOrdered, delete_issue-row_at,
}
use codefort.Issues.Claims.{
  claimable, claim_row, claim, unclaim_row, unclaim, stale, expire_claims, lapsed,
}
use codefort.Issues.Claims.Lock.{at-claim_row, at-unclaim_row, claim_cases}
use codefort.Issues.Edit.Consistency.{create_issue-row_at, update_issue-row_at}

-- The calls that agents and the reaper make on the tracker, each with its arguments.
pub data Call : Type 0 where
  creates : ℕ → CreateIssueRequest → Call
  patches : ℕ → ℕ → IssuePatch → Call
  claims : ℕ → ℕ → String → Option IssueState → Call
  unclaims : ℕ → ℕ → String → Call
  deletes : ℕ → ℕ → Call
  reaps : Call

-- One call at time `now`, under the server's claim lease.
pub step : ℤ → Tracker → ℕ × Call → Tracker
step lease t (now, creates repo req) = after t (create_issue t now repo req)
step lease t (now, patches repo n p) = after t (update_issue t now repo n p)
step lease t (now, claims repo n caller state) = after t (claim t now repo n caller state lease)
step lease t (now, unclaims repo n caller) = after t (unclaim t now repo n caller)
step lease t (now, deletes repo n) = deleted t (delete_issue t repo n)
step lease t (now, reaps) = (expire_claims t now lease).1

pub run : ℤ → Tracker → List (ℕ × Call) → Tracker
run lease t [] = t
run lease t (c ∷ cs) = run lease (step lease t c) cs

-- Issue `number` of `repo` is held by `owner` since `since`.
pub record IsHeld (repo number : ℕ) (owner : String) (since : ℕ) (t : Tracker) : Type 0 where
  pub row : Issue
  pub there : row_at t repo number ≡ some row
  pub held : row.assignee ≡ some owner
  pub stamped : row.claimed_at ≡ some since

-- The call comes before the lease runs out, it is no claim or release by the owner, and it does not
-- delete the issue.
abbrev pub Leaves : ℤ → ℕ → ℕ → String → ℕ → ℕ × Call → Type 0
Leaves lease repo number owner since (now, c) =
    ((s : ℕ) → positive_seconds lease ≡ some s → now < since + s) × Spares repo number owner c
  where
    Spares : ℕ → ℕ → String → Call → Type 0
    Spares repo number owner (claims r n caller state) = caller ≢ owner
    Spares repo number owner (unclaims r n caller) = caller ≢ owner
    Spares repo number owner (deletes r n) = OtherKey r n repo number
    Spares repo number owner _ = Unit {0}

not_lapsed :
    (lease : ℤ) (now since : ℕ) (i : Issue)
    → ((s : ℕ) → positive_seconds lease ≡ some s → now < since + s)
    → i.claimed_at ≡ some since
    → lapsed lease now i ≡ false
not_lapsed lease now since i h e = elim (Option-cases (positive_seconds lease)) [
  | inl d ↦ ground arith
  | inr (s, d) ↦ ground (arith, h s d)
]

not_claimable :
    (lease : ℤ) (now since : ℕ) (caller owner : String) (i : Issue)
    → ((s : ℕ) → positive_seconds lease ≡ some s → now < since + s)
    → caller ≢ owner
    → i.assignee ≡ some owner
    → i.claimed_at ≡ some since
    → claimable lease now caller i ≡ false
unfolding claimable
not_claimable lease now since caller owner i h d a e =
    ground (arith, not_lapsed lease now since i h e, eq_iff owner caller)

not_stale :
    (s now : ℕ) {since : ℕ} (i : Issue)
    → now < since + s
    → i.claimed_at ≡ some since
    → stale s now i ≡ false
unfolding stale
not_stale s now i h e = ground arith

module _ (lease : ℤ) (repo number : ℕ) (owner : String) (since : ℕ) where
  claim-IsHeld :
      (t : Tracker) (now r n : ℕ) (caller : String) (state : Option IssueState)
      → ((s : ℕ) → positive_seconds lease ≡ some s → now < since + s)
      → caller ≢ owner
      → IsHeld repo number owner since t
      → IsHeld repo number owner since (after t (claim t now r n caller state lease))
  claim-IsHeld t now r n caller state h d k =
      claim_cases (IsHeld repo number owner since) t now r n caller state lease k (record {
        row = k.row;
        there = ground (
          arith,
          select_first-update (at repo number)
              (λ (i : Issue). at r n i && claimable lease now caller i) (claim_row now caller state)
              t.issues k.row (at-claim_row repo number now caller state) k.there,
          not_claimable lease now since caller owner k.row h d k.held k.stamped,
        );
        held = k.held;
        stamped = k.stamped;
      })

  -- The row that a release of another agent clears is not the held one.
  released_other :
      (t : Tracker) (r n : ℕ) (cur : Issue) (o caller : String)
      → caller ≢ owner
      → (k : IsHeld repo number owner since t) → row_at t r n ≡ some cur
      → cur.assignee ≡ some o
      → (o == caller) ≡ true
      → at r n k.row ≡ false
  released_other t r n cur o caller d k e a b = elim (Bool-cases (at r n k.row)) [
    | inr h ↦ h
    | inl h ↦ absurd (
        ground (
          arith,
          eq_iff o caller,
          k.held,
          k.there,
          select_first_test (at repo number) t.issues k.row k.there,
          nat_beq_iff k.row.repo_id r,
          nat_beq_iff k.row.number n,
          nat_beq_iff k.row.repo_id repo,
          nat_beq_iff k.row.number number,
        ))
  ]

  unclaim-IsHeld :
      (t : Tracker) (now r n : ℕ) (caller : String)
      → caller ≢ owner
      → IsHeld repo number owner since t
      → IsHeld repo number owner since (after t (unclaim t now r n caller))
  unfolding unclaim
  unclaim-IsHeld t now r n caller d k = elim (Option-cases (row_at t r n)) [
    | inl e ↦ rw e k
    | inr (cur, e) ↦ elim (Option-cases cur.assignee) [
      | inl a ↦ rw (e, a) k
      | inr (o, a) ↦ elim (Bool-cases (o == caller)) [
        | inr b ↦ rw (e, a, b) k
        | inl b ↦
            rw (e, a, b)
              (record {
                row = k.row;
                there = ground (
                  arith,
                  select_first-update (at repo number) (at r n) (unclaim_row now) t.issues k.row
                      (at-unclaim_row repo number now) k.there,
                  released_other t r n cur o caller d k e a b,
                );
                held = k.held;
                stamped = k.stamped;
              })
      ]
    ]
  ]

  reap-IsHeld :
      (t : Tracker) (now : ℕ)
      → ((s : ℕ) → positive_seconds lease ≡ some s → now < since + s)
      → IsHeld repo number owner since t
      → IsHeld repo number owner since (expire_claims t now lease).1
  unfolding expire_claims
  reap-IsHeld t now h k = elim (Option-cases (positive_seconds lease)) [
    | inl e ↦ rw (e, expire_claims) k
    | inr (s, e) ↦
        rw (e, expire_claims)
          (record {
            row = k.row;
            there = ground (
              arith,
              select_first-update (at repo number) (stale s now) (unclaim_row now) t.issues k.row
                  (at-unclaim_row repo number now) k.there,
              not_stale s now k.row (h s e) k.stamped,
            );
            held = k.held;
            stamped = k.stamped;
          })
  ]

  step-IsHeld :
      (t : Tracker) (c : ℕ × Call)
      → Leaves lease repo number owner since c
      → IsOrdered t
      → IsHeld repo number owner since t
      → IsHeld repo number owner since (step lease t c)
  unfolding step
  step-IsHeld t (now, creates r req) l o k = record {
    row = k.row;
    there = create_issue-row_at t now r req repo number k.row k.there;
    held = k.held;
    stamped = k.stamped;
  }
  step-IsHeld t (now, patches r n p) l o k =
      let (j, e, same) = update_issue-row_at t now r n p repo number k.row k.there in
      record { row = j; there = e; held = same.0 ∙ k.held; stamped = same.1 ∙ k.stamped }
  step-IsHeld t (now, claims r n caller state) l o k = claim-IsHeld t now r n caller state l.0 l.1 k
  step-IsHeld t (now, unclaims r n caller) l o k = unclaim-IsHeld t now r n caller l.1 k
  step-IsHeld t (now, reaps) l o k = reap-IsHeld t now l.0 k
  step-IsHeld t (now, deletes r n) l o k = record {
    row = k.row;
    there = delete_issue-row_at t r n repo number k.row o l.1 k.there;
    held = k.held;
    stamped = k.stamped;
  }

  step-IsOrdered : (t : Tracker) (c : ℕ × Call) → IsOrdered t → IsOrdered (step lease t c)
  unfolding step unclaim unclaim_row claim_row expire_claims
  step-IsOrdered t (now, creates r req) o = create_issue-IsOrdered t now r req o
  step-IsOrdered t (now, patches r n p) o = update_issue-IsOrdered t now r n p o
  step-IsOrdered t (now, claims r n caller state) o =
      claim_cases IsOrdered t now r n caller state lease o
        (update-IsOrdered t _ (claim_row now caller state) (λ i. refl) o)
  step-IsOrdered t (now, unclaims r n caller) o = elim (Option-cases (row_at t r n)) [
    | inl e ↦ rw e o
    | inr (cur, e) ↦ elim (Option-cases cur.assignee) [
      | inl a ↦ rw (e, a) o
      | inr (w, a) ↦ elim (Bool-cases (w == caller)) [
        | inr b ↦ rw (e, a, b) o
        | inl b ↦ rw (e, a, b) (update-IsOrdered t (at r n) (unclaim_row now) (λ i. refl) o)
      ]
    ]
  ]
  step-IsOrdered t (now, deletes r n) o = delete_issue-IsOrdered t r n o
  step-IsOrdered t (now, reaps) o = elim (Option-cases (positive_seconds lease)) [
    | inl e ↦ rw (step, expire_claims, e) o
    | inr (s, e) ↦
        rw (step, expire_claims, e)
          (update-IsOrdered t (stale s now) (unclaim_row now) (λ i. refl) o)
  ]

-- While a lease is live, or with leases switched off, the holder of an issue keeps it, in whatever
-- order the calls come: no creation, edit, claim or release of other agents, no run of the reaper and
-- no deletion of another issue takes it away. The issue itself is not deleted, and the rows of the
-- table are in id order at the start.
pub run-IsHeld :
    (lease : ℤ) (repo number : ℕ) (owner : String) (since : ℕ) (t : Tracker) (cs : List (ℕ × Call))
    → All (Leaves lease repo number owner since) cs
    → IsOrdered t
    → IsHeld repo number owner since t
    → IsHeld repo number owner since (run lease t cs)
unfolding run
run-IsHeld lease repo number owner since t [] l o k = k
run-IsHeld lease repo number owner since t (c ∷ cs) l o k =
    run-IsHeld lease repo number owner since (step lease t c) cs l.1
      (step-IsOrdered lease repo number owner since t c o)
      (step-IsHeld lease repo number owner since t c l.0 o k)
