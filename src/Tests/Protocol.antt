-- ===== src/Tests/Protocol.antt =====
-- A blocking lock that has to wait, and one that is taken again.
use ulockmgr.Prelude.{◌≡◌, refl, true, false, some, List, [], ◌∷◌, arith}
use ulockmgr.IoError.{ok}
use ulockmgr.Messages.LockCommand.{done}
use ulockmgr.Daemon.State.{DaemonOwnerInner, InterruptibleHandle, new_inner}
use ulockmgr.Daemon.Lock.{LockReply, set_lock_blocking_thread}
use ulockmgr.Protocol.Blocking.{
  Masks, at_setlkw, client_result, blocking_spec, setlk_answer, setlkw_answer,
  blocking_lock_refines,
}
use ulockmgr.Protocol.Relock.{granted_lock_taken_again}
use ulockmgr.Tests.Platform.{
  linux, errnos, setlk, whole_file, World, nobody, this_owner, another, toy_kernel, masks,
}
use ulockmgr.Kernel.{Kernel}
use ulockmgr.Types.{params_into_flock}
use ulockmgr.Tests.Client.{interrupted_round, one_interruption}

abbrev handle : InterruptibleHandle
handle = record { thread = 9; exit = 0 }

-- Another process holds the lock, and the client is interrupted once while it waits.
blocking_lock_refines_example :
    (replies : List LockReply) × (owner' : DaemonOwnerInner) × (s' : World)
    × (set_lock_blocking_thread toy_kernel linux errnos new_inner handle 7 whole_file another
        ≡ some (replies, owner', s'))
    × (client_result errnos (interrupted_round ∷ []) replies
        ≡ blocking_spec errnos whole_file
            (setlk_answer toy_kernel linux errnos masks new_inner handle 7 whole_file another)
            (setlkw_answer toy_kernel linux errnos masks new_inner handle 7 whole_file another))
blocking_lock_refines_example =
    blocking_lock_refines toy_kernel linux errnos masks new_inner handle 7 whole_file another
      (omega arith) (omega arith) (interrupted_round ∷ []) one_interruption

abbrev Held : World → Type 0
Held w = w ≡ this_owner

-- The client releases the lock before SIGUSR1 is let through.
abbrev releasing_kernel : Kernel
releasing_kernel = record toy_kernel { sig_unblock = λ _ w. (ok true, nobody) }

abbrev releasing_masks : Masks releasing_kernel
releasing_masks = record { block = λ s. (false, refl); unblock = λ s. (true, refl) }

-- It is granted at once, and free again when the thread goes on: it ends up held.
granted_lock_taken_again_example :
    (s' : World) × (set_lock_blocking_thread releasing_kernel linux errnos new_inner handle 7
        whole_file nobody
      ≡ some (ok (done whole_file) ∷ ok (done whole_file) ∷ [], new_inner, s'))
    × ((later : List LockReply)
        → client_result errnos [] (ok (done whole_file) ∷ later) ≡ ok whole_file)
    × Held s'
granted_lock_taken_again_example =
    granted_lock_taken_again releasing_kernel linux errnos releasing_masks Held 7 whole_file
      (λ s e. refl) (λ old s h. h) new_inner handle nobody [] refl refl

released_meanwhile :
    ((setlk 7 (params_into_flock linux whole_file) nobody).1 ≡ this_owner)
    × (at_setlkw releasing_kernel linux errnos releasing_masks 7 whole_file nobody ≡ nobody)
released_meanwhile = (refl, refl)
