-- ===== src/Runs/Statuses.antt =====
-- What the tests on statuses and kinds say.
use codefort.Base.{◌≡◌, refl, true}
use codefort.Runs.{
  RunStatus, queued, running, awaiting_input, finishing, success, failed, canceled, error,
  interrupted, stalled, RunKind, ci, agent, spec_verify, TurnStatus, turn_pending, turn_running,
  turn_done, turn_error, is_queued, is_running, is_awaiting, same_kind,
}
use codefort.Runs.Turns.{is_pending, is_turn_running}

pub is_queued_eq : (s : RunStatus) → is_queued s ≡ true → s ≡ queued
is_queued_eq queued h = refl
is_queued_eq running h = cc
is_queued_eq awaiting_input h = cc
is_queued_eq finishing h = cc
is_queued_eq success h = cc
is_queued_eq failed h = cc
is_queued_eq canceled h = cc
is_queued_eq error h = cc
is_queued_eq interrupted h = cc
is_queued_eq stalled h = cc

pub is_running_eq : (s : RunStatus) → is_running s ≡ true → s ≡ running
is_running_eq queued h = cc
is_running_eq running h = refl
is_running_eq awaiting_input h = cc
is_running_eq finishing h = cc
is_running_eq success h = cc
is_running_eq failed h = cc
is_running_eq canceled h = cc
is_running_eq error h = cc
is_running_eq interrupted h = cc
is_running_eq stalled h = cc

pub is_awaiting_eq : (s : RunStatus) → is_awaiting s ≡ true → s ≡ awaiting_input
is_awaiting_eq queued h = cc
is_awaiting_eq running h = cc
is_awaiting_eq awaiting_input h = refl
is_awaiting_eq finishing h = cc
is_awaiting_eq success h = cc
is_awaiting_eq failed h = cc
is_awaiting_eq canceled h = cc
is_awaiting_eq error h = cc
is_awaiting_eq interrupted h = cc
is_awaiting_eq stalled h = cc

pub is_pending_eq : (s : TurnStatus) → is_pending s ≡ true → s ≡ turn_pending
is_pending_eq turn_pending h = refl
is_pending_eq turn_running h = cc
is_pending_eq turn_done h = cc
is_pending_eq turn_error h = cc

pub is_turn_running_eq : (s : TurnStatus) → is_turn_running s ≡ true → s ≡ turn_running
is_turn_running_eq turn_pending h = cc
is_turn_running_eq turn_running h = refl
is_turn_running_eq turn_done h = cc
is_turn_running_eq turn_error h = cc

pub same_kind_eq : (a b : RunKind) → same_kind a b ≡ true → a ≡ b
same_kind_eq ci ci h = refl
same_kind_eq ci agent h = cc
same_kind_eq ci spec_verify h = cc
same_kind_eq agent ci h = cc
same_kind_eq agent agent h = refl
same_kind_eq agent spec_verify h = cc
same_kind_eq spec_verify ci h = cc
same_kind_eq spec_verify agent h = cc
same_kind_eq spec_verify spec_verify h = refl

pub same_kind_refl : (a : RunKind) → same_kind a a ≡ true
same_kind_refl ci = refl
same_kind_refl agent = refl
same_kind_refl spec_verify = refl
