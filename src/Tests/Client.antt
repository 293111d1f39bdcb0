-- ===== src/Tests/Client.antt =====
-- The client's wait for a lock, with one interruption.
use ulockmgr.Prelude.{ℕ, ◌≤◌, ◌≡◌, refl, true, some, [], ◌∷◌, ◌++◌}
use ulockmgr.IoError.{os, custom, other, ok, err, kind}
use ulockmgr.Messages.LockCommand.{pending, done}
use ulockmgr.Client.Wait.{lock_command, remove_interrupt, Round, set_lock_blocking}
use ulockmgr.Client.Cleanup.{interrupts, interruptions, AllInterrupted, set_lock_blocking_cleans_up}
use ulockmgr.Client.Detached.{panicked, returned, set_lock_blocking_detached, done_called_once}
use ulockmgr.Tests.Platform.{errnos, whole_file}

-- EINTR, and then the lock.
abbrev pub interrupted_round : Round
interrupted_round = record { unblock = ok tt; item = some (err (os 4)); answer = ok (ok tt) }

abbrev granted_round : Round
granted_round = record {
  unblock = ok tt;
  item = some (ok (ok (done whole_file)));
  answer = ok (ok tt);
}

set_lock_blocking_cleans_up_example :
    (m : ℕ) × (m ≤ interruptions errnos (interrupted_round ∷ granted_round ∷ []))
    × ((set_lock_blocking errnos
          (ok tt)
          (ok tt)
          (some (ok (ok (pending 3))))
          (interrupted_round ∷ granted_round ∷ [])).1
        ≡ lock_command ∷ interrupts m 3 ++ remove_interrupt 3 ∷ [])
set_lock_blocking_cleans_up_example =
    set_lock_blocking_cleans_up errnos 3 (interrupted_round ∷ granted_round ∷ [])

pub one_interruption : AllInterrupted errnos (interrupted_round ∷ [])
unfolding kind
one_interruption = (os 4, refl, refl, refl, refl, tt)

abbrev callback : ℕ
callback = 5

-- The thread panics while it waits for the lock.
done_called_once_example :
    set_lock_blocking_detached true (returned (ok tt)) panicked callback
    ≡ (callback, err (custom other)) ∷ []
done_called_once_example = done_called_once true (returned (ok tt)) panicked callback
