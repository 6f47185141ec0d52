-- ===== src/Runs/Turns/Dispatch.antt =====
-- ClaimNextTurn: which turn is dispatched, and what becomes of its run.
use codefort.Base.{
  Any, none, select_first-Any, ℕ, ◌+◌, ◌≤◌, ◌≡◌, refl, sym, ap, ◌∙◌, ◌⊎◌, inl, inr, true, false,
  ◌&&◌, some, arith, ℤ, positive_seconds, ◌==◌, nat_eq, nat_beq_iff, Bool-cases, Option-cases,
  if◌then◌else◌, select_first, update, count, select_first_test, count_selected,
  select_first-update,
}
use codefort.Storage.{ok, ok-injective}
use codefort.Runs.Statuses.{is_pending_eq, is_turn_running_eq, is_awaiting_eq, same_kind_eq}
use codefort.Runs.{
  awaiting_input, turn_pending, turn_running, running, agent, Run, Turn, Store, run_is, same_kind,
}
use codefort.Runs.Turns.{
  is_pending, run_awaits, run_of_agent, dispatchable, claim_turn_row, claim_next_turn,
}

-- The row of a turn that is handed to a runner.
abbrev pub sent : ℕ → Turn → Turn
sent now t = record t {
  status = turn_running;
  claimed_at = some now;
  started_at = some (elim t.started_at [ none ↦ now | some s ↦ s ]);
}

-- The turn waits on a parked run, or its dispatch is past the lease.
abbrev pub IsDispatchable : ℤ → ℕ → Turn → Run → Type 0
IsDispatchable lease now t r =
    ((t.status ≡ turn_pending) × (r.status ≡ awaiting_input))
    ⊎ ((secs : ℕ) × (c : ℕ) × (positive_seconds lease ≡ some secs)
        × (t.status ≡ turn_running)
        × (t.claimed_at ≡ some c)
        × (c + secs ≤ now))

dispatchable_sound :
    (s : Store) (lease : ℤ) (now : ℕ) (t : Turn) (r : Run)
    → select_first (run_is t.run_id) s.runs ≡ some r
    → dispatchable s lease now t ≡ true
    → IsDispatchable lease now t r
unfolding dispatchable
dispatchable_sound s lease now t r e d =
    elim (Bool-cases (is_pending t.status && run_awaits s t.run_id)) [
      | inl h ↦ inl (
        is_pending_eq t.status (ground (arith, h)),
        is_awaiting_eq r.status (ground (arith, h, e)),
      )
      | inr h ↦ elim (Option-cases (positive_seconds lease)) [
        | inl p ↦ absurd (ground (arith, h, p, d))
        | inr (secs, p) ↦ elim (Option-cases t.claimed_at) [
          | inl c ↦ absurd (ground (arith, h, p, c, d))
          | inr (c, k) ↦ inr (
            secs,
            c,
            p,
            is_turn_running_eq t.status (ground (arith, h, p, k, d)),
            k,
            ground (arith, h, p, k, d),
          )
        ]
      ]
    ]

agent_row :
    (s : Store) (run : ℕ)
    → run_of_agent s run ≡ true
    → (r : Run) × (select_first (run_is run) s.runs ≡ some r) × (same_kind r.kind agent ≡ true)
agent_row s run h = elim (Option-cases (select_first (run_is run) s.runs)) [
  | inl e ↦ absurd (ground arith)
  | inr (r, e) ↦ (r, e, ground arith)
]

claim_next_turn_of :
    (s : Store) (now : ℕ) (lease : ℤ) (t : Turn) (r : Run)
    → select_first (λ x. run_of_agent s x.run_id && dispatchable s lease now x) s.turns ≡ some t
    → select_first (run_is t.run_id) s.runs ≡ some r
    → claim_next_turn s now lease
      ≡ ok (
        (claim_turn_row now t, record r { status = running }),
        record s {
          turns =
              update (λ x. x.id == t.id && dispatchable s lease now x) (claim_turn_row now) s.turns;
          runs = update (run_is t.run_id) (λ x. record x { status = running }) s.runs;
        },
      )
unfolding claim_next_turn
claim_next_turn_of s now lease t r e row =
    let test =
      select_first_test (λ x. run_of_agent s x.run_id && dispatchable s lease now x) s.turns t e in
    let some_taken =
      count_selected (λ x. run_of_agent s x.run_id && dispatchable s lease now x)
        (λ x. x.id == t.id && dispatchable s lease now x) s.turns t e
        (ground (arith, test, nat_beq_iff t.id t.id)) in
    let flipped : select_first (run_is t.run_id)
          (update (run_is t.run_id) (λ x. record x { status = running }) s.runs)
        ≡ some (record r { status = running }) =
      select_first-update (run_is t.run_id) (run_is t.run_id) (λ x. record x { status = running })
        s.runs r (λ x. refl) row
      ∙ ap (λ b. some (if b then record r { status = running } else r))
          (select_first_test (run_is t.run_id) s.runs r row) in
    let on : (count (λ (x : Turn). x.id == t.id && dispatchable s lease now x) s.turns == 0)
        ≡ false =
      ground (arith, some_taken) in
    rw (e, on, flipped) refl

claimed_turn :
    (s s' : Store) (now : ℕ) (lease : ℤ) (t t₀ : Turn) (r r₀ : Run)
    → select_first (λ x. run_of_agent s x.run_id && dispatchable s lease now x) s.turns ≡ some t₀
    → select_first (run_is t₀.run_id) s.runs ≡ some r₀
    → claim_next_turn s now lease ≡ ok ((t, r), s')
    → (t ≡ claim_turn_row now t₀) × (r ≡ record r₀ { status = running })
claimed_turn s s' now lease t t₀ r r₀ e row h =
    let same = ok-injective _ ((t, r), s') (sym (claim_next_turn_of s now lease t₀ r₀ e row) ∙ h) in
    (sym (ap (λ x. x.0.0) same), sym (ap (λ x. x.0.1) same))

claim_turn_row_is : (now : ℕ) (t : Turn) → claim_turn_row now t ≡ sent now t
unfolding claim_turn_row
claim_turn_row_is now t = elim (Option-cases t.started_at) [
  | inl e ↦ rw e refl
  | inr (s, e) ↦ rw e refl
]

-- When ClaimNextTurn hands out a turn, the turn is a row of the table that either waited while its run
-- was parked for input or was running past a positive lease; its run is an agent run, and both come
-- back as running, the turn with the claim's time and its first start, the run whatever its status
-- was.
pub claim_next_turn_sound :
    (s s' : Store) (now : ℕ) (lease : ℤ) (t : Turn) (r : Run)
    → claim_next_turn s now lease ≡ ok ((t, r), s')
    → (t₀ : Turn) × (r₀ : Run) × Any (λ x. x ≡ t₀) s.turns
      × (select_first (run_is t₀.run_id) s.runs ≡ some r₀)
      × (r₀.kind ≡ agent)
      × IsDispatchable lease now t₀ r₀
      × (t ≡ sent now t₀)
      × (r ≡ record r₀ { status = running })
unfolding claim_next_turn
claim_next_turn_sound s s' now lease t r h =
    elim (Option-cases
      (select_first (λ x. run_of_agent s x.run_id && dispatchable s lease now x) s.turns)) [
        | inl e ↦ absurd (ground (arith, e, h))
        | inr (t₀, e) ↦
            let test =
              select_first_test (λ x. run_of_agent s x.run_id && dispatchable s lease now x) s.turns
                t₀ e in
            let (r₀, row, of_agent) = agent_row s t₀.run_id (ground (arith, test)) in
            (
              t₀,
              r₀,
              select_first-Any _ s.turns t₀ e,
              row,
              same_kind_eq r₀.kind agent of_agent,
              dispatchable_sound s lease now t₀ r₀ row (ground (arith, test)),
              (claimed_turn s s' now lease t t₀ r r₀ e row h).0 ∙ claim_turn_row_is now t₀,
              (claimed_turn s s' now lease t t₀ r r₀ e row h).1,
            )
      ]
