-- ===== src/Daemon/Lock/Masks.antt =====
-- The signal mask of a lock thread: `SigSetGuard` of src/helpers.rs in `set_lock_blocking` of src/owner.rs.
use ulockmgr.Prelude.{ℕ, ◌≡◌, some, inl, inr, arith, List, Option-cases}
use ulockmgr.IoError.{Result-cases, ok, err, Errnos}
use ulockmgr.Types.{Libc, LockParams, params_into_flock}
use ulockmgr.Kernel.{Kernel, block_all_signals, unblock_signal, drop_guard}
use ulockmgr.Daemon.State.{DaemonOwnerInner, InterruptibleHandle}
use ulockmgr.Daemon.Lock.{LockReply, try_lock, wait_lock, set_lock_blocking_thread}

-- How the calls on the mask of a thread go: `pthread_sigmask` gives the old mask, changes nothing if
-- it fails, and SIG_SETMASK sets it.
pub record KeepsMask (k : Kernel) : Type 0 where
  pub mask : k.World → k.SigSet
  pub block_gives : (a r : k.SigSet) (s : k.World) → (k.sig_block a s).0 ≡ ok r → r ≡ mask s
  pub block_fails :
      (a : k.SigSet) (e : ℕ) (s : k.World)
      → (k.sig_block a s).0 ≡ err e
      → mask (k.sig_block a s).1 ≡ mask s
  pub unblock_gives : (a r : k.SigSet) (s : k.World) → (k.sig_unblock a s).0 ≡ ok r → r ≡ mask s
  pub unblock_fails :
      (a : k.SigSet) (e : ℕ) (s : k.World)
      → (k.sig_unblock a s).0 ≡ err e
      → mask (k.sig_unblock a s).1 ≡ mask s
  pub sets : (old : k.SigSet) (s : k.World) → mask (k.sig_setmask old s).1 ≡ old

module _ (k : Kernel) (c : Libc) (n : Errnos) (l : KeepsMask k) where
  open k use {World, all, sigusr1, sig_block, sig_unblock, setlkw}
  open l use {mask, block_gives, block_fails, unblock_gives, unblock_fails, sets}

  wait_lock-mask :
      (fd : ℕ) (lock : LockParams) (w : World) → mask (wait_lock k c n fd lock w).1 ≡ mask w
  unfolding wait_lock unblock_signal drop_guard
  wait_lock-mask fd lock w = elim (Result-cases (sig_unblock sigusr1 w).0) [
    | inl (r, e) ↦ ground (
      arith,
      e,
      unblock_gives sigusr1 r w e,
      sets r (setlkw fd (params_into_flock c lock) (sig_unblock sigusr1 w).1).1,
    )
    | inr (x, e) ↦ ground (arith, e, unblock_fails sigusr1 x w e)
  ]

  -- However a blocking lock ends on its thread, at whichever step it fails, the thread is left with
  -- the signal mask that it had; and waiting in F_SETLKW, where SIGUSR1 is let through, leaves the
  -- mask as it was before. The calls on the mask go as `KeepsMask` says.
  pub set_lock_blocking_thread-mask :
      (owner owner' : DaemonOwnerInner) (h : InterruptibleHandle) (fd : ℕ) (lock : LockParams)
      (w w' : World) (replies : List LockReply)
      → set_lock_blocking_thread k c n owner h fd lock w ≡ some (replies, owner', w')
      → (mask w' ≡ mask w) × ((s : World) → mask (wait_lock k c n fd lock s).1 ≡ mask s)
  unfolding set_lock_blocking_thread block_all_signals drop_guard
  set_lock_blocking_thread-mask owner owner' h fd lock w w' replies q = (
    elim (Result-cases (sig_block all w).0) [
      | inr (x, e) ↦ ground (arith, e, q, block_fails all x w e)
      | inl (r, e) ↦ elim (Option-cases (try_lock k c n owner h fd lock (sig_block all w).1)) [
        | inl u ↦ absurd (ground (arith, e, u, q))
        | inr ((first, d, v), t) ↦
            ground (arith, e, t, q, block_gives all r w e, sets r (wait_lock k c n fd lock v).1)
      ]
    ],
    wait_lock-mask fd lock,
  )
