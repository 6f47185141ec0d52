-- ===== src/Runs/Queue/Lifecycle.antt =====
-- The status of a run under every statement of ci.go and agent_turns.go that writes it, except
-- ClaimNextTurn.
use codefort.Base.{
  ℕ, ◌≡◌, refl, ap, inl, inr, Bool, true, false, ◌&&◌, some, List, [], ◌∷◌, arith, ℤ,
  positive_seconds, ◌==◌, nat_eq, Bool-cases, Option-cases, if◌then◌else◌, select_first, update,
  count, select_first-append, select_first-update,
}
use codefort.Storage.{Result, ok, err, after}
use codefort.Runs.{
  RunStatus, queued, running, awaiting_input, finishing, success, failed, canceled, error,
  interrupted, stalled, RunKind, agent, terminal, is_queued, is_running, is_awaiting, is_finishing,
  same_kind, Run, Store, run_is,
}
use codefort.Runs.Queue.{
  NewRun, enqueue_run, claimable_run, claim_run_row, claim_next_run_of_kind, update_run, finish_run,
  mark_run_awaiting_input, mark_run_finishing, cancel_agent_run, cancel_ci_run,
  claim_next_finishing_run,
}
use codefort.Runs.Retention.{is_orphan, reconcile_orphan_runs}

-- The calls that write a run's status, each with its arguments.
pub data Call : Type 0 where
  enqueues : ℕ → NewRun → Call
  claims : RunKind → ℤ → Call
  finishes : ℕ → RunStatus → Call
  parks accepts cancels_agent cancels_ci : ℕ → Call
  hands_off reconciles : Call

abbrev pub or_same : Store → Result Store → Store
or_same s (ok s') = s'
or_same s (err e) = s

-- One call at time `now`; a failed one changes nothing.
pub step : Store → ℕ × Call → Store
step s (now, enqueues repo req) = (enqueue_run s now repo req).1
step s (now, claims kind lease) = after s (claim_next_run_of_kind s now kind lease)
step s (now, finishes id status) = or_same s (finish_run s now id status)
step s (now, parks id) = or_same s (mark_run_awaiting_input s id)
step s (now, accepts id) = or_same s (mark_run_finishing s id)
step s (now, cancels_agent id) = or_same s (cancel_agent_run s now id)
step s (now, cancels_ci id) = or_same s (cancel_ci_run s now id)
step s (now, hands_off) = after s (claim_next_finishing_run s)
step s (now, reconciles) = (reconcile_orphan_runs s now).1

pub run : Store → List (ℕ × Call) → Store
run s [] = s
run s (c ∷ cs) = run (step s c) cs

-- Run `id` is there, and its status is final.
pub record IsOver (id : ℕ) (s : Store) : Type 0 where
  pub row : Run
  pub there : select_first (run_is id) s.runs ≡ some row
  pub over : terminal row.status ≡ true

-- An update that leaves ids alone, and whose test a final run fails or whose outcome is final.
update_keeps :
    (s : Store) (id : ℕ) (p : Run → Bool) (f : Run → Run) (rs : List Run)
    → rs ≡ update p f s.runs
    → ((r : Run) → (f r).id ≡ r.id)
    → ((r : Run) → terminal r.status ≡ true → p r ≡ true → terminal (f r).status ≡ true)
    → IsOver id s
    → IsOver id (record s { runs = rs })
update_keeps s id p f rs e k h o = record {
  row = if p o.row then f o.row else o.row;
  there =
      rw e
        (select_first-update (run_is id) p f s.runs o.row (λ x. ap (λ n. n == id) (k x)) o.there);
  over = elim (Bool-cases (p o.row)) [ inl t ↦ rw t (h o.row o.over t) | inr t ↦ rw t o.over ];
}

update_run_keeps :
    (s : Store) (id : ℕ) (p : Run → Bool) (f : Run → Run)
    → ((r : Run) → (f r).id ≡ r.id)
    → ((r : Run) → terminal r.status ≡ true → p r ≡ true → terminal (f r).status ≡ true)
    → IsOver id s
    → IsOver id (or_same s (update_run s p f))
update_run_keeps s id p f k h o = elim (Bool-cases (count p s.runs == 0)) [
  | inl e ↦ rw e o
  | inr e ↦ rw e (update_keeps s id p f (update p f s.runs) refl k h o)
]

not_live :
    (s : RunStatus)
    → terminal s ≡ true
    → (is_queued s ≡ false)
      × (is_running s ≡ false)
      × (is_awaiting s ≡ false)
      × (is_finishing s ≡ false)
not_live queued h = absurd (ground arith)
not_live running h = absurd (ground arith)
not_live awaiting_input h = absurd (ground arith)
not_live finishing h = absurd (ground arith)
not_live success h = (refl, refl, refl, refl)
not_live failed h = (refl, refl, refl, refl)
not_live canceled h = (refl, refl, refl, refl)
not_live error h = (refl, refl, refl, refl)
not_live interrupted h = (refl, refl, refl, refl)
not_live stalled h = (refl, refl, refl, refl)

claimed_id : (now : ℕ) (r : Run) → (claim_run_row now r).id ≡ r.id
unfolding claim_run_row
claimed_id now r = refl

final_not_claimable :
    (lease : ℤ) (now : ℕ) (kind : RunKind) (r : Run)
    → terminal r.status ≡ true
    → claimable_run lease now kind r ≡ false
unfolding claimable_run
final_not_claimable lease now kind r t =
    let (q, l, a, f) = not_live r.status t in
    elim (Option-cases (positive_seconds lease)) [
      | inl e ↦ ground (arith, q, l, e)
      | inr (secs, e) ↦ ground (arith, q, l, e)
    ]

claim_keeps :
    (s : Store) (now id : ℕ) (kind : RunKind) (lease : ℤ)
    → IsOver id s
    → IsOver id (after s (claim_next_run_of_kind s now kind lease))
unfolding claim_next_run_of_kind
claim_keeps s now id kind lease o =
    elim (Option-cases (select_first (claimable_run lease now kind) s.runs)) [
      | inl e ↦ rw e o
      | inr (r, e) ↦
          elim (Bool-cases
            (count (λ x. x.id == r.id && claimable_run lease now kind x) s.runs == 0)) [
              | inl z ↦ rw (e, z) o
              | inr z ↦
                  rw (e, z)
                    (update_keeps s id _ (claim_run_row now) _ refl (claimed_id now)
                      (λ x t c. absurd (ground (arith, final_not_claimable lease now kind x t, c)))
                      o)
            ]
    ]

-- A call never takes a run out of a final status.
step-IsOver : (s : Store) (id : ℕ) (c : ℕ × Call) → IsOver id s → IsOver id (step s c)
unfolding step enqueue_run finish_run mark_run_awaiting_input mark_run_finishing cancel_agent_run
    cancel_ci_run reconcile_orphan_runs claim_next_finishing_run
step-IsOver s id (now, enqueues repo req) o = record {
  row = o.row;
  there =
      select_first-append (run_is id) s.runs ((enqueue_run s now repo req).0 ∷ []) o.row o.there;
  over = o.over;
}
step-IsOver s id (now, claims kind lease) o = claim_keeps s now id kind lease o
step-IsOver s id (now, finishes run status) o = elim (Bool-cases (terminal status)) [
  | inr e ↦ rw e o
  | inl e ↦ rw e (update_run_keeps s id (run_is run) _ (λ r. refl) (λ r t h. e) o)
]
step-IsOver s id (now, parks run) o =
    update_run_keeps s id _ _ (λ r. refl) (λ r t h. absurd (ground (arith, not_live r.status t, h)))
      o
step-IsOver s id (now, accepts run) o =
    update_run_keeps s id _ _ (λ r. refl) (λ r t h. absurd (ground (arith, not_live r.status t, h)))
      o
step-IsOver s id (now, cancels_agent run) o =
    update_run_keeps s id _ _ (λ r. refl) (λ r t h. refl) o
step-IsOver s id (now, cancels_ci run) o = update_run_keeps s id _ _ (λ r. refl) (λ r t h. refl) o
step-IsOver s id (now, hands_off) o =
    elim (Option-cases
      (select_first (λ r. same_kind r.kind agent && is_finishing r.status) s.runs)) [
        | inl e ↦ rw e o
        | inr (row, e) ↦
            elim (Bool-cases (count (λ x. x.id == row.id && is_finishing x.status) s.runs == 0)) [
              | inl z ↦ rw (e, z) o
              | inr z ↦
                  rw (e, z)
                    (update_keeps s id _ _ _ refl (λ r. refl)
                      (λ r t h. absurd (ground (arith, not_live r.status t, h))) o)
            ]
      ]
step-IsOver s id (now, reconciles) o =
    let kept =
      update_keeps s id is_orphan (λ r. record r { status = interrupted; finished_at = some now })
        (reconcile_orphan_runs s now).1.runs refl (λ r. refl) (λ r t h. refl) o in
    record { row = kept.row; there = kept.there; over = kept.over }

-- A run that has reached a final status has one after every sequence of the calls that enqueue,
-- claim, finish, park, accept, cancel, hand off and reconcile runs, for whatever runs and times.
pub run-IsOver : (s : Store) (id : ℕ) (cs : List (ℕ × Call)) → IsOver id s → IsOver id (run s cs)
unfolding run
run-IsOver s id [] o = o
run-IsOver s id (c ∷ cs) o = run-IsOver (step s c) id cs (step-IsOver s id c o)
