-- ===== src/Client/Detached.antt =====
-- `Invoker` and `Lockable::set_lock_blocking_detached` of src/owner.rs.
-- A callback is a value of a type `F`; the calls of it are listed with the results handed to it.
use ulockmgr.Prelude.{
  ◌≡◌, refl, Bool, true, false, Option, none, some, List, [], ◌∷◌, ◌++◌, if◌then◌else◌,
}
use ulockmgr.IoError.{IoError, custom, other, Result, ok, err}
use ulockmgr.Types.{LockParams}

-- How a piece of a thread ends.
pub data Outcome (A : Type 0) : Type 0 where
  returned : A → Outcome A
  panicked : Outcome A

pub record Invoker (F : Type 0) : Type 0 where
  pub inner : Option F

abbrev pub Calls : Type 0 → Type 0
Calls F = List (F × Result LockParams IoError)

module _ {F : Type 0} where
  unfoldable pub invoke : Result LockParams IoError → Invoker F → Invoker F × Calls F
  invoke r i = elim i.inner [ none ↦ (i, []) | some f ↦ (record { inner = none }, (f, r) ∷ []) ]

  -- `Invoker::drop`
  unfoldable pub drop_invoker : Invoker F → Calls F
  drop_invoker i = (invoke (err (custom other)) i).1

  -- `invoke`, and the end of the scope.
  unfoldable pub invoke_last : Result LockParams IoError → Invoker F → Calls F
  invoke_last r i = let (i', calls) = invoke r i in calls ++ drop_invoker i'

  -- The closure on its thread, by how `pre` and `set_lock_blocking` end.
  unfoldable pub detached_thread :
      Outcome (Result (Unit {0}) IoError)
      → Outcome (Result LockParams IoError)
      → Invoker F
      → Calls F
  detached_thread panicked lock i = drop_invoker i
  detached_thread (returned (err e)) lock i = invoke_last (err e) i
  detached_thread (returned (ok _)) panicked i = drop_invoker i
  detached_thread (returned (ok _)) (returned r) i = invoke_last r i

  -- The whole call, with whether `tracker.spawn` has run the closure or dropped it.
  unfoldable pub set_lock_blocking_detached :
      Bool → Outcome (Result (Unit {0}) IoError) → Outcome (Result LockParams IoError) → F → Calls F
  set_lock_blocking_detached spawned pre lock f =
      let i : Invoker F = record { inner = some f } in
      if spawned then detached_thread pre lock i else drop_invoker i

-- What the callback is to be told.
abbrev pub reported :
    Bool
    → Outcome (Result (Unit {0}) IoError)
    → Outcome (Result LockParams IoError)
    → Result LockParams IoError
reported true (returned (ok _)) (returned r) = r
reported true (returned (err e)) _ = err e
reported _ _ _ = err (custom other)

-- The callback of a detached lock is called exactly once: with the result of the lock if it was
-- tried, with the error of the first callback if that failed, and with an error if the thread could
-- not be started or panicked.
pub done_called_once :
    {F : Type 0} (spawned : Bool) (pre : Outcome (Result (Unit {0}) IoError))
    (lock : Outcome (Result LockParams IoError)) (f : F)
    → set_lock_blocking_detached spawned pre lock f ≡ (f, reported spawned pre lock) ∷ []
unfolding set_lock_blocking_detached detached_thread drop_invoker invoke invoke_last
done_called_once false pre lock f = refl
done_called_once true panicked lock f = refl
done_called_once true (returned (err e)) lock f = refl
done_called_once true (returned (ok _)) panicked f = refl
done_called_once true (returned (ok _)) (returned r) f = refl
