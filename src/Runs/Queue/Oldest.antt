-- ===== src/Runs/Queue/Oldest.antt =====
-- ClaimNextRunOfKind takes the oldest run, described without the statement's own tests.
use codefort.Base.{
  ℕ, ◌+◌, ◌≤◌, ◌≡◌, ◌≢◌, refl, ◌⊎◌, inl, inr, true, false, ◌&&◌, none, some, arith, ℤ,
  positive_seconds, ◌==◌, nat_eq, nat_beq_iff, Bool-cases, Option-cases, All, All-map, select_first,
  select_first-update_other,
}
use codefort.Storage.{ok, err, no_run_queued}
use codefort.Runs.{queued, running, RunKind, is_queued, Run, Store, run_is, IsOrdered}
use codefort.Runs.Statuses.{is_queued_eq, is_running_eq, same_kind_eq, same_kind_refl}
use codefort.Runs.Queue.{claimable_run, claim_run_row, claim_next_run_of_kind}
use codefort.Runs.Queue.Claiming.{claimed_store, claim_first, row_claimed}

-- A run of the kind that waits in the queue, or whose claim is older than a positive lease.
abbrev pub IsClaimable : ℕ → RunKind → ℤ → Run → Type 0
IsClaimable now kind lease r =
    (r.kind ≡ kind)
    × ((r.status ≡ queued)
        ⊎ ((secs : ℕ) × (c : ℕ) × (positive_seconds lease ≡ some secs)
            × (r.status ≡ running)
            × (r.claimed_at ≡ some c)
            × (c + secs ≤ now)))

-- The row of a run that is handed to a runner.
abbrev pub handed_out : ℕ → Run → Run
handed_out now r = record r {
  status = running;
  claimed_at = some now;
  started_at = some (elim r.started_at [ none ↦ now | some t ↦ t ]);
}

handed_out_claim : (now : ℕ) (r : Run) → claim_run_row now r ≡ handed_out now r
unfolding claim_run_row
handed_out_claim now r = elim (Option-cases r.started_at) [
  | inl e ↦ rw e refl
  | inr (t, e) ↦ rw e refl
]

IsClaimable-sound :
    (now : ℕ) (kind : RunKind) (lease : ℤ) (r : Run)
    → claimable_run lease now kind r ≡ true
    → IsClaimable now kind lease r
unfolding claimable_run
IsClaimable-sound now kind lease r h =
    let of_kind = same_kind_eq r.kind kind (ground (arith, h)) in
    elim (Bool-cases (is_queued r.status)) [
      | inl q ↦ (of_kind, inl (is_queued_eq r.status q))
      | inr q ↦ elim (Option-cases (positive_seconds lease)) [
        | inl e ↦ absurd (ground (arith, h, q, e))
        | inr (secs, e) ↦ elim (Option-cases r.claimed_at) [
          | inl f ↦ absurd (ground (arith, h, q, e, f))
          | inr (c, f) ↦ (
            of_kind,
            inr (
              secs,
              c,
              e,
              is_running_eq r.status (ground (arith, h, q, e)),
              f,
              ground (arith, h, q, e, f),
            ),
          )
        ]
      ]
    ]

claimable_complete :
    (now : ℕ) (kind : RunKind) (lease : ℤ) (r : Run)
    → IsClaimable now kind lease r
    → claimable_run lease now kind r ≡ true
unfolding claimable_run
claimable_complete now kind lease r (k, inl q) = rw (k, q) (ground (arith, same_kind_refl kind))
claimable_complete now kind lease r (k, inr (secs, c, e, s, f, d)) =
    rw (k, s, e, f) (ground (arith, same_kind_refl kind))

same_id : (now id : ℕ) (r : Run) → run_is id (claim_run_row now r) ≡ run_is id r
unfolding claim_run_row
same_id now id r = refl

-- When the rows are in id order, a claim reports an idle queue if no run of the kind waits or has
-- outlived its lease, and otherwise hands out the one of least id among those that do: its row is
-- running with the claim's time and its first start, and the rows of other ids are as they were.
pub claim-IsOldest :
    (s : Store) (now : ℕ) (kind : RunKind) (lease : ℤ)
    → IsOrdered s
    → (All (λ r. ¬ IsClaimable now kind lease r) s.runs
        × (claim_next_run_of_kind s now kind lease ≡ err no_run_queued))
      ⊎ ((r : Run) × (s' : Store) × (select_first (run_is r.id) s.runs ≡ some r)
          × IsClaimable now kind lease r
          × All (λ x. IsClaimable now kind lease x → r.id ≤ x.id) s.runs
          × (claim_next_run_of_kind s now kind lease ≡ ok (handed_out now r, s'))
          × (select_first (run_is r.id) s'.runs ≡ some (handed_out now r))
          × ((id : ℕ)
              → id ≢ r.id
              → select_first (run_is id) s'.runs ≡ select_first (run_is id) s.runs))
claim-IsOldest s now kind lease o = elim (claim_first s now kind lease o) [
  | inl (idle, e) ↦ inl (
    All-map (λ r. claimable_run lease now kind r ≡ false) (λ r. ¬ IsClaimable now kind lease r)
        s.runs (λ r f c. ground (arith, f, claimable_complete now kind lease r c)) idle,
    e,
  )
  | inr (r, old, e) ↦ inr (
    r,
    claimed_store s now kind lease r.id,
    old.0,
    IsClaimable-sound now kind lease r old.1,
    All-map (λ x. claimable_run lease now kind x ≡ true → r.id ≤ x.id)
        (λ x. IsClaimable now kind lease x → r.id ≤ x.id) s.runs
        (λ x f c. f (claimable_complete now kind lease x c)) old.2,
    rw (← handed_out_claim now r) e,
    rw (← handed_out_claim now r) (row_claimed s now kind lease r old),
    others_kept s now kind lease r,
  )
]
  where
    others_kept :
        (s : Store) (now : ℕ) (kind : RunKind) (lease : ℤ) (r : Run) (id : ℕ)
        → id ≢ r.id
        → select_first (run_is id) (claimed_store s now kind lease r.id).runs
          ≡ select_first (run_is id) s.runs
    others_kept s now kind lease r id d =
        select_first-update_other (run_is id) (λ x. x.id == r.id && claimable_run lease now kind x)
          (claim_run_row now) s.runs (same_id now id)
          (λ x h. ground (arith, nat_beq_iff x.id id, nat_beq_iff x.id r.id))
