-- ===== src/Backoff.antt =====
-- `Backoff` of crossbeam_utils, which src/waiter.rs and src/tracker.rs use, as an interface: a count of
-- the pauses so far, which says when it is time to block. Nothing is assumed of it.
use ulockmgr.Prelude.{Bool}

pub record Backoff : Type 1 where
  pub State : Type 0
  pub new : State
  pub spin : State → State
  pub snooze : State → State
  pub reset : State → State
  pub is_completed : State → Bool
