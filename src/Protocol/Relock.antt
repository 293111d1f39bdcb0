-- ===== src/Protocol/Relock.antt =====
-- The lock thread of src/owner.rs after a lock that F_SETLK has granted.
use ulockmgr.Prelude.{ℕ, ◌≡◌, some, arith, List, [], ◌∷◌}
use ulockmgr.IoError.{ok, Errnos, io_cvt}
use ulockmgr.Types.{Libc, LockParams, params_into_flock}
use ulockmgr.Messages.LockCommand.{done}
use ulockmgr.Kernel.{Kernel, block_all_signals, unblock_signal, drop_guard}
use ulockmgr.Daemon.State.{DaemonOwnerInner, InterruptibleHandle}
use ulockmgr.Daemon.Lock.{LockReply, try_lock, wait_lock, set_lock_blocking_thread}
use ulockmgr.Client.Wait.{Round}
use ulockmgr.Protocol.Blocking.{
  Masks, at_setlk, setlk_answer, setlkw_answer, client_result, client-done,
}

module _ (k : Kernel) (c : Libc) (n : Errnos) (masks : Masks k) where
  open k use {World, SigSet, setlk, setlkw, sigusr1, sig_unblock, sig_setmask}

  module _ (Held : World → Type 0) (fd : ℕ) (lock : LockParams)
      (grants : (s : World)
        → (setlkw fd (params_into_flock c lock) s).0 ≡ ok tt
        → Held (setlkw fd (params_into_flock c lock) s).1)
      (kept : (old : SigSet) (s : World) → Held s → Held (sig_setmask old s).1) where
    waited :
        (w : World)
        → (setlkw fd (params_into_flock c lock) (sig_unblock sigusr1 w).1).0 ≡ ok tt
        → (s' : World) × (wait_lock k c n fd lock w ≡ (ok (done lock), s')) × Held s'
    unfolding wait_lock io_cvt unblock_signal drop_guard
    waited w again =
        let (r, e) = masks.unblock w in
        let w' : World = (setlkw fd (params_into_flock c lock) (sig_unblock sigusr1 w).1).1 in
        (
          (sig_setmask r w').1,
          ground (arith, e, again),
          kept r w' (grants (sig_unblock sigusr1 w).1 again),
        )

    -- Once F_SETLK has granted a lock, the thread of the server hands Done to the client, which
    -- returns with the lock and takes no further reply. The same thread goes on to F_SETLKW: whatever
    -- has become of the lock by then, if the kernel grants it again, the thread hands Done over a
    -- second time, and ends with the lock held, by a client that may have released it. `Held` is any
    -- predicate that a granted F_SETLKW establishes and that a change of the signal mask keeps; the
    -- mask can be changed. What other threads and processes do in between is in the changes of the
    -- world that the calls make.
    pub granted_lock_taken_again :
        (owner : DaemonOwnerInner) (h : InterruptibleHandle) (s : World) (is : List Round)
        → setlk_answer k c n masks owner h fd lock s ≡ ok tt
        → setlkw_answer k c n masks owner h fd lock s ≡ ok tt
        → (s' : World) × (set_lock_blocking_thread k c n owner h fd lock s
            ≡ some (ok (done lock) ∷ ok (done lock) ∷ [], owner, s'))
          × ((later : List LockReply) → client_result n is (ok (done lock) ∷ later) ≡ ok lock)
          × Held s'
    unfolding set_lock_blocking_thread block_all_signals try_lock io_cvt drop_guard
    granted_lock_taken_again owner h s is granted again =
        let (r, b) = masks.block s in
        let w : World = (setlk fd (params_into_flock c lock) (at_setlk k c n masks s)).1 in
        let (w', last, held) = waited w again in
        (
          (sig_setmask r w').1,
          ground (arith, b, granted, last),
          λ later. client-done n is lock later,
          kept r w' held,
        )
