-- ===== src/Budget/Bounds.antt =====
-- Bounds on the runs in flight under the shared budget of cmd/codefortd/budget.go.
use codefort.Base.{ℕ, suc, ◌+◌, ◌-◌, ◌≤◌, ◌<◌, ◌≡◌, true, false, arith}
use codefort.Budget.{
  WorkBudget, new_work_budget, try_acquire_ci, release_ci, try_acquire_agent, release_agent,
}

-- The runner's use of the budget: the runs in flight, beside the channels.
pub record Runner : Type 0 where
  pub budget : WorkBudget
  pub ci : ℕ
  pub agents : ℕ

-- One acquire by a drain loop, or the release of a run of that kind that was dispatched.
pub data Step : Runner → Runner → Type 0 where
  start_ci :
      (r : Runner)
      → (try_acquire_ci r.budget).1 ≡ true
      → Step r (record r { budget = (try_acquire_ci r.budget).0; ci = suc r.ci })
  skip_ci :
      (r : Runner)
      → (try_acquire_ci r.budget).1 ≡ false
      → Step r (record r { budget = (try_acquire_ci r.budget).0 })
  end_ci :
      (r : Runner) → 0 < r.ci → Step r (record r { budget = release_ci r.budget; ci = r.ci - 1 })
  start_agent :
      (r : Runner)
      → (try_acquire_agent r.budget).1 ≡ true
      → Step r (record r { budget = (try_acquire_agent r.budget).0; agents = suc r.agents })
  skip_agent :
      (r : Runner)
      → (try_acquire_agent r.budget).1 ≡ false
      → Step r (record r { budget = (try_acquire_agent r.budget).0 })
  end_agent :
      (r : Runner)
      → 0 < r.agents
      → Step r (record r { budget = release_agent r.budget; agents = r.agents - 1 })

pub data Reach (s : Runner) : Runner → Type 0 where
  here : Reach s s
  next : {t u : Runner} → Reach s t → Step t u → Reach s u

abbrev pub start : ℕ → ℕ → Runner
start total reserved = record { budget = new_work_budget total reserved; ci = 0; agents = 0 }

-- The tokens in the channels are the runs in flight.
record Inv (total reserved : ℕ) (r : Runner) : Type 0 where
  slots : r.budget.shared.used ≡ r.ci + r.agents
  ci_slots : r.budget.ci_allow.used ≡ r.ci
  shared_size : r.budget.shared.size ≡ total
  ci_size : r.budget.ci_allow.size ≡ total - reserved
  shared_fits : r.budget.shared.used ≤ r.budget.shared.size
  ci_fits : r.budget.ci_allow.used ≤ r.budget.ci_allow.size

start-Inv : (total reserved : ℕ) → 0 < total → Inv total reserved (start total reserved)
unfolding new_work_budget
start-Inv total reserved h = ground arith

Step-Inv :
    (total reserved : ℕ) {r s : Runner} → Step r s → Inv total reserved r → Inv total reserved s
unfolding try_acquire_ci release_ci try_acquire_agent release_agent
Step-Inv t v (start_ci r h) i = ground arith
Step-Inv t v (skip_ci r h) i = ground arith
Step-Inv t v (end_ci r h) i = ground arith
Step-Inv t v (start_agent r h) i = ground arith
Step-Inv t v (skip_agent r h) i = ground arith
Step-Inv t v (end_agent r h) i = ground arith

Reach-Inv :
    (total reserved : ℕ) {r : Runner}
    → 0 < total
    → Reach (start total reserved) r
    → Inv total reserved r
Reach-Inv t v h here = start-Inv t v h
Reach-Inv t v h (next p s) = Step-Inv t v s (Reach-Inv t v h p)

-- Whatever the order of acquires and releases, for a positive total: at most `total` runs are in
-- flight, at most `total - reserved` of them CI runs.
pub in_flight_bounded :
    (total reserved : ℕ) {r : Runner}
    → 0 < total
    → Reach (start total reserved) r
    → (r.ci + r.agents ≤ total) × (r.ci ≤ total - reserved)
in_flight_bounded t v h p = omega (arith, Reach-Inv t v h p)

-- For a positive total and a reserve of at most the total: however many CI runs are in flight, an
-- agent run is refused only when `total` runs are in flight already, and while fewer than
-- `reserved` agent runs are in flight it gets a slot.
pub agent_not_starved :
    (total reserved : ℕ) {r : Runner}
    → 0 < total
    → reserved ≤ total
    → Reach (start total reserved) r
    → ((try_acquire_agent r.budget).1 ≡ false → r.ci + r.agents ≡ total)
      × (r.agents < reserved → (try_acquire_agent r.budget).1 ≡ true)
unfolding try_acquire_agent
agent_not_starved t v h le p = let i = Reach-Inv t v h p in ground arith

-- A CI acquire that fails leaves both channels as they were.
pub try_acquire_ci_refused :
    (b : WorkBudget) → (try_acquire_ci b).1 ≡ false → (try_acquire_ci b).0 ≡ b
unfolding try_acquire_ci
try_acquire_ci_refused b h = ground arith
