-- ===== src/Daemon/Handlers.antt =====
-- The handlers of src/owner.rs that run on the command loop, and the steps of those that do not.
use ulockmgr.Prelude.{ℕ, ◌+◌, ◌-◌, Option, none, some, length}
use ulockmgr.Prelude.Assoc.{get, remove}
use ulockmgr.IoError.{IoError, custom, not_found, Result, ok, err, ok_or}
use ulockmgr.Kernel.{SigHandler, ensure_sigaction_exists}
use ulockmgr.Messages.Interrupt.{Interrupt}
use ulockmgr.Messages.RemoveInterrupt.{RemoveInterrupt}
use ulockmgr.Messages.Register.{Register}
use ulockmgr.Messages.Unregister.{Unregister}
use ulockmgr.Daemon.Ids.{insert_vacant}
use ulockmgr.Daemon.State.{InterruptibleHandle, DaemonOwnerInner, acquire_exit_lock, new_arc}

-- `handle_interrupt` up to the call of `stop`: the handle to stop.
unfoldable pub interrupt_target : DaemonOwnerInner → Interrupt → Result InterruptibleHandle IoError
interrupt_target d interrupt = ok_or (get interrupt.id d.interrupts) (custom not_found)

-- The fuel is one more than the entries.
unfoldable pub handle_interrupt_add :
    DaemonOwnerInner → InterruptibleHandle → Option (ℕ × DaemonOwnerInner)
handle_interrupt_add d handle =
    elim (insert_vacant (length d.interrupts + 1) d.interrupt_next_id handle d.interrupts) [
      | none ↦ none
      | some g ↦ some (g.id, record d { interrupts = g.entries; interrupt_next_id = g.next_id })
    ]

unfoldable pub handle_interrupt_remove :
    DaemonOwnerInner → RemoveInterrupt → Result (Unit {0}) IoError × DaemonOwnerInner
handle_interrupt_remove d interrupt = elim (get interrupt.id d.interrupts) [
  | none ↦ (err (custom not_found), d)
  | some _ ↦ (ok tt, record d { interrupts = remove interrupt.id d.interrupts })
]

-- The loop at the end of `handle_fd_register`, with `fd_data` at an address.
unfoldable pub insert_descriptor : ℕ → DaemonOwnerInner → Option (ℕ × DaemonOwnerInner)
insert_descriptor address d =
    elim (insert_vacant (length d.descriptors + 1) d.next_id address d.descriptors) [
      | none ↦ none
      | some g ↦ some (g.id, record d { descriptors = g.entries; next_id = g.next_id })
    ]

-- `handle_fd_register` once the exit lock is taken. `InterruptibleTracker::new` asks for the
-- handler of SIGUSR1; if it fails the guard is dropped. `none`: the loop over IDs has not ended.
unfoldable pub register_locked :
    Result (Unit {0}) IoError → ℕ → DaemonOwnerInner → Option (Result ℕ IoError × DaemonOwnerInner)
register_locked (err e) fd d = some (err e, record d { readers = d.readers - 1 })
register_locked (ok _) fd d =
    let (address, d') = new_arc fd d in
    elim (insert_descriptor address d') [ none ↦ none | some (id, d'') ↦ some (ok id, d'') ]

-- What `sigaction` answers comes first: its result, `errno` and the handler.
unfoldable pub handle_fd_register :
    (ret errno : ℕ)
    → SigHandler
    → DaemonOwnerInner
    → Register
    → Option (Result ℕ IoError × DaemonOwnerInner)
handle_fd_register ret errno action d register =
    let (r, d') = acquire_exit_lock d in
    elim r [
      | err e ↦ some (err e, d')
      | ok _ ↦ register_locked (ensure_sigaction_exists ret errno action) register.fd d'
    ]

-- `handle_fd_unregister` up to the call of `stop`: the entry goes, its `Arc` is kept.
unfoldable pub unregister_remove :
    DaemonOwnerInner → Unregister → Result ℕ IoError × DaemonOwnerInner
unregister_remove d unregister = elim (get unregister.id d.descriptors) [
  | none ↦ (err (custom not_found), d)
  | some address ↦ (ok address, record d { descriptors = remove unregister.id d.descriptors })
]
