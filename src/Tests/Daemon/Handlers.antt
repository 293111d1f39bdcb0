-- ===== src/Tests/Daemon/Handlers.antt =====
-- The handlers of the owner process and its lock commands on concrete input.
use ulockmgr.Prelude.{ℕ, ◌≡◌, refl, [], ◌∷◌, arith}
use ulockmgr.Prelude.Assoc.{get}
use ulockmgr.IoError.{custom, not_found, ok, err}
use ulockmgr.Tracker.{new_tracker}
use ulockmgr.Daemon.State.{DaemonOwnerInner, InterruptibleHandle, new_inner}
use ulockmgr.Daemon.Ids.{insert_vacant, next_u64}
use ulockmgr.Daemon.Handlers.{handle_interrupt_add, handle_interrupt_remove, interrupt_target}
use ulockmgr.Daemon.Registry.{interrupt_lifetime}

abbrev with_file : DaemonOwnerInner
with_file = record new_inner {
  readers = 1;
  next_id = 1;
  descriptors = (0, 0) ∷ [];
  heap = (0, record { descriptor = 7; strong = 1 }) ∷ [];
  trackers = (0, new_tracker) ∷ [];
  next_address = 1;
}

abbrev handle : InterruptibleHandle
handle = record { thread = 9; exit = 0 }

abbrev interruptible : DaemonOwnerInner
interruptible = record with_file { interrupts = (0, handle) ∷ []; interrupt_next_id = 1 }

interrupt_lifetime_example :
    let (r, d'') = handle_interrupt_remove interruptible (record { id = 0 }) in
    (interrupt_target with_file (record { id = 0 }) ≡ err (custom not_found))
    × (interrupt_target interruptible (record { id = 0 }) ≡ ok handle)
    × (r ≡ ok tt)
    × (handle_interrupt_remove d'' (record { id = 0 }) ≡ (err (custom not_found), d''))
    × ((j : ℕ) → get j d''.interrupts ≡ get j with_file.interrupts)
interrupt_lifetime_example =
    interrupt_lifetime handle 0 with_file interruptible (omega arith)
      (unfold handle_interrupt_add insert_vacant next_u64 get in refl)
