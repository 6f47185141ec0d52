-- ===== src/Budget.antt =====
-- cmd/codefortd/budget.go: the run-concurrency budget shared by CI and agent runs.
-- A buffered channel used as a semaphore is its capacity and the number of tokens in it: a send in
-- a select with a default succeeds while there is room, and a receive takes one token out.
pub mod Bounds
pub mod Examples
use codefort.Base.{ℕ, suc, ◌-◌, Bool, true, false, ltb, if◌then◌else◌}

pub record Channel : Type 0 where
  pub size : ℕ
  pub used : ℕ

pub record WorkBudget : Type 0 where
  pub shared : Channel
  pub ci_allow : Channel

abbrev make : ℕ → Channel
make n = record { size = n; used = 0 }

-- select { case ch <- struct{}{}: … default: … }
try_send : Channel → Channel × Bool
try_send ch = if ltb ch.used ch.size then (record ch { used = suc ch.used }, true) else (ch, false)

-- <-ch, by a caller that put a token in before
receive : Channel → Channel
receive ch = record ch { used = ch.used - 1 }

-- `reserved` is negative in Go only to be raised to 0.
pub new_work_budget : ℕ → ℕ → WorkBudget
new_work_budget total reserved =
    let total' = if ltb total 1 then 1 else total in
    let reserved' = if ltb total' reserved then total' else reserved in
    record { shared = make total'; ci_allow = make (total' - reserved') }

-- The ciAllow token goes back when no shared slot is left.
pub try_acquire_ci : WorkBudget → WorkBudget × Bool
unfolding try_send receive
try_acquire_ci b =
    let (allow, allowed) = try_send b.ci_allow in
    let (slots, got) = try_send b.shared in
    if allowed
    then if got
      then (record { shared = slots; ci_allow = allow }, true)
      else (record { shared = slots; ci_allow = receive allow }, false)
    else (b, false)

pub release_ci : WorkBudget → WorkBudget
unfolding receive
release_ci b = record { shared = receive b.shared; ci_allow = receive b.ci_allow }

pub try_acquire_agent : WorkBudget → WorkBudget × Bool
unfolding try_send
try_acquire_agent b = let (slots, got) = try_send b.shared in (record b { shared = slots }, got)

pub release_agent : WorkBudget → WorkBudget
unfolding receive
release_agent b = record b { shared = receive b.shared }
