-- ===== src/Daemon/Command/Answers.antt =====
-- `handle_lock_command` of src/owner.rs in the states that an owner process reaches.
use ulockmgr.Prelude.{ℕ, ◌≡◌, refl, Option, some, inl, inr, arith, Option-cases}
use ulockmgr.Prelude.Assoc.{get}
use ulockmgr.IoError.{Errnos, custom, not_found, err, io_cvt}
use ulockmgr.Types.{Libc}
use ulockmgr.Messages.LockCommand.{LockCommand}
use ulockmgr.Kernel.{Kernel}
use ulockmgr.Daemon.State.{FdData, DaemonOwnerInner, clone_arc}
use ulockmgr.Daemon.System.{System, Reach}
use ulockmgr.Daemon.Invariant.{mapped-pos}
use ulockmgr.Daemon.Safety.{strong-eq-holders}
use ulockmgr.Daemon.Command.{Handled, replied, run_command, handle_lock_command}

-- A file that is registered in a reachable state is in the heap.
pub registered_open :
    {s : System} (id a : ℕ)
    → Reach s
    → get id s.inner.descriptors ≡ some a
    → (x : FdData) × (get a s.inner.heap ≡ some x)
registered_open {s} id a r e = elim (Option-cases (get a s.inner.heap)) [
  | inl gone ↦ absurd (ground (arith, strong-eq-holders r a, mapped-pos id a s.inner.descriptors e))
  | inr found ↦ found
]

module _ (k : Kernel) (c : Libc) (n : Errnos) where
  -- In every reachable state a lock command is handled: the map does not lead to a file that has been
  -- dropped.
  pub command_answers :
      {s : System} (m : LockCommand) (thread : Option ℕ) (w : k.World)
      → Reach s
      → (r : Handled × DaemonOwnerInner × k.World) × (handle_lock_command k c n m thread s.inner w
          ≡ some r)
  unfolding handle_lock_command
  command_answers {s} m thread w r = elim (Option-cases (get m.id s.inner.descriptors)) [
    | inl e ↦ (
      (replied (io_cvt n (err (custom not_found))), s.inner, w),
      rw (e, handle_lock_command) refl,
    )
    | inr (a, e) ↦
        let (x, found) = registered_open m.id a r e in
        (
          run_command k c n m.action a x.descriptor m.params thread (clone_arc a s.inner) w,
          rw (e, handle_lock_command, found, handle_lock_command) refl,
        )
  ]
