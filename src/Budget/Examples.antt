-- ===== src/Budget/Examples.antt =====
-- Examples for the run budget: two slots, one of them kept from CI runs.
use codefort.Base.{◌+◌, ◌-◌, ◌≤◌, ◌<◌, ◌≡◌, refl, true, false, arith}
use codefort.Budget.{try_send, receive, new_work_budget, try_acquire_ci, try_acquire_agent}
use codefort.Budget.Bounds.{
  Runner, start_ci, skip_ci, Reach, here, next, start, in_flight_bounded, agent_not_starved,
}

abbrev one_ci : Runner
one_ci = record {
  budget = record {
    shared = record { size = 2; used = 1 };
    ci_allow = record { size = 1; used = 1 };
  };
  ci = 1;
  agents = 0;
}

-- One CI run starts, and the next one is refused.
busy : Reach (start 2 1) one_ci
unfolding new_work_budget try_acquire_ci try_send receive
busy =
    next {u = one_ci} (next {t = start 2 1} {u = one_ci} here (start_ci (start 2 1) refl))
      (skip_ci one_ci refl)

in_flight_bounded_example : (1 + 0 ≤ 2) × (1 ≤ 2 - 1)
in_flight_bounded_example = in_flight_bounded 2 1 (omega arith) busy

agent_not_starved_example :
    ((try_acquire_agent one_ci.budget).1 ≡ false → 1 + 0 ≡ 2)
    × (0 < 1 → (try_acquire_agent one_ci.budget).1 ≡ true)
agent_not_starved_example = agent_not_starved 2 1 (omega arith) (omega arith) busy
