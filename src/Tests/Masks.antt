-- ===== src/Tests/Masks.antt =====
-- A lock thread that is interrupted while it waits, over a kernel whose state is the mask.
use ulockmgr.Prelude.{◌≡◌, refl, Bool, true, false, [], ◌∷◌, arith}
use ulockmgr.IoError.{ok, err, io_cvt, errno_of}
use ulockmgr.Messages.LockCommand.{pending}
use ulockmgr.Kernel.{Kernel, block_all_signals, unblock_signal, drop_guard}
use ulockmgr.Daemon.Ids.{insert_vacant, next_u64}
use ulockmgr.Daemon.State.{DaemonOwnerInner, InterruptibleHandle, new_inner}
use ulockmgr.Daemon.Handlers.{handle_interrupt_add}
use ulockmgr.Daemon.Lock.{try_lock, wait_lock, set_lock_blocking_thread}
use ulockmgr.Daemon.Lock.Masks.{KeepsMask, set_lock_blocking_thread-mask}
use ulockmgr.Prelude.Assoc.{get}
use ulockmgr.Tests.Platform.{linux, errnos, whole_file}

-- The mask is whether all signals are blocked.
abbrev mask_kernel : Kernel
mask_kernel = record {
  World = Bool;
  SigSet = Bool;
  all = true;
  sigusr1 = false;
  sig_block = λ _ w. (ok w, true);
  sig_unblock = λ _ w. (ok w, false);
  sig_setmask = λ old w. (ok w, old);
  getlk = λ _ lock w. (ok lock, w);
  setlk = λ _ _ w. (err 11, w);
  setlkw = λ _ _ w. (err 4, w);
}

abbrev keeps_mask : KeepsMask mask_kernel
keeps_mask = record {
  mask = λ w. w;
  block_gives = λ a r s e. ground arith;
  block_fails = λ a x s e. absurd (ground arith);
  unblock_gives = λ a r s e. ground arith;
  unblock_fails = λ a x s e. absurd (ground arith);
  sets = λ old s. refl;
}

abbrev handle : InterruptibleHandle
handle = record { thread = 9; exit = 0 }

abbrev with_interrupt : DaemonOwnerInner
with_interrupt = record new_inner { interrupts = (0, handle) ∷ []; interrupt_next_id = 1 }

set_lock_blocking_thread-mask_example :
    (false ≡ false) × ((s : Bool) → (wait_lock mask_kernel linux errnos 7 whole_file s).1 ≡ s)
set_lock_blocking_thread-mask_example =
    set_lock_blocking_thread-mask mask_kernel linux errnos keeps_mask new_inner with_interrupt
      handle 7 whole_file false false (ok (pending 0) ∷ err 4 ∷ [])
      (unfold set_lock_blocking_thread block_all_signals try_lock wait_lock unblock_signal
          drop_guard io_cvt errno_of handle_interrupt_add insert_vacant next_u64 get in
        refl)
