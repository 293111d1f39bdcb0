-- ===== src/Tests/Daemon/Threads.antt =====
-- An unregistration that waits for the last `Arc`, and a thread that waits for a lock.
use ulockmgr.Prelude.{
  ℕ, ◌<◌, ◌^◌, ◌≡◌, refl, none, some, arith, [], ◌++◌, length, ◌==◌, if◌then◌else◌,
}
use ulockmgr.IoError.{IoError, Result, custom, resource_busy, ok, err}
use ulockmgr.Prelude.Assoc.{get}
use ulockmgr.Kernel.{function}
use ulockmgr.Daemon.Handlers.{handle_fd_register, handle_interrupt_add}
use ulockmgr.Daemon.Answers.{Registered, registration_fits}
use ulockmgr.Daemon.State.{DaemonOwnerInner, try_exit}
use ulockmgr.Daemon.System.{System, idle}
use ulockmgr.Daemon.Invariant.{mapped, strong_at}
use ulockmgr.Daemon.Threads.{tally, guarded, ending, IsClosed}
use ulockmgr.Daemon.Threads.Work.{Leads}
use ulockmgr.Daemon.Threads.Quiet.{waiting_alone}
use ulockmgr.Daemon.Threads.Rest.{comes_to_rest}
use ulockmgr.Tests.Daemon.Schedule.{alone, alone-Reach, locked, locked-Reach}

waiting_alone_example :
    IsClosed 0 alone.inner.trackers
    × (tally (guarded 0 9) alone.tasks ≡ 0)
    × (mapped 0 alone.inner.descriptors ≡ 0)
    × (tally (ending 0) ([] ++ []) ≡ 0)
waiting_alone_example = waiting_alone 0 9 [] [] alone-Reach refl

comes_to_rest_example :
    (t : System) × Leads locked t
    × (t.main ≡ idle)
    × (t.tasks ≡ [])
    × ((a : ℕ) → strong_at a t.inner.heap ≡ mapped a t.inner.descriptors)
    × ((try_exit t.inner).0
        ≡ (if length t.inner.descriptors == 0 then ok tt else err (custom resource_busy)))
comes_to_rest_example = comes_to_rest locked-Reach

registration_fits_example :
    ((r : Result ℕ IoError) × (d' : DaemonOwnerInner) × (handle_fd_register 0 0 function
          locked.inner
          (record { fd = 12 })
        ≡ some (r, d'))
      × Registered 12 locked.inner r d')
    × ((id : ℕ) × (d' : DaemonOwnerInner) × (handle_interrupt_add locked.inner
            (record { thread = 3; exit = 0 })
          ≡ some (id, d'))
        × (id < 2 ^ 64)
        × (get id locked.inner.interrupts ≡ none)
        × ((j : ℕ)
            → get j d'.interrupts ≡ (
                if id == j
                then some (record { thread = 3; exit = 0 })
                else get j locked.inner.interrupts)))
registration_fits_example =
    registration_fits 0 0 function (record { fd = 12 }) (record { thread = 3; exit = 0 })
      locked-Reach (omega arith) (omega arith)
