-- ===== src/Daemon/Lock/Replies.antt =====
-- What a lock command answers, for every answer of the kernel: src/owner.rs.
use ulockmgr.Prelude.{ℕ, ◌≡◌, inl, inr, arith}
use ulockmgr.IoError.{Result-cases, ok, map_ok, Errnos, io_cvt, errno_of}
use ulockmgr.Types.{Libc, IsLibc, LockParams, params_into_flock}
use ulockmgr.Types.RoundTrip.{params_roundtrip}
use ulockmgr.Messages.LockCommand.{done}
use ulockmgr.Kernel.{Kernel}
use ulockmgr.Daemon.Lock.{get_lock, set_lock}

module _ (k : Kernel) (c : Libc) (n : Errnos) (w : IsLibc c) where
  open k use {World, SigSet, getlk, setlk, setlkw}

  -- A non-blocking command answers with the parameters that it was sent if the kernel grants the
  -- lock, and otherwise with the kernel's own error number.
  pub set_lock_answers :
      (fd : ℕ) (params : LockParams) (s : World)
      → (set_lock k c n fd params s).0
        ≡ map_ok (λ _. done params) (setlk fd (params_into_flock c params) s).0
  unfolding set_lock io_cvt errno_of
  set_lock_answers fd params s = elim (Result-cases (setlk fd (params_into_flock c params) s).0) [
    | inl (u, e) ↦ ground (arith, e, params_roundtrip c w params)
    | inr (x, e) ↦ ground (arith, e)
  ]

  -- A status query answers with what the kernel wrote, whatever lock it describes.
  pub get_lock_answers :
      (fd : ℕ) (params found : LockParams) (s s' : World)
      → getlk fd (params_into_flock c params) s ≡ (ok (params_into_flock c found), s')
      → get_lock k c n fd params s ≡ (ok (done found), s')
  unfolding get_lock io_cvt
  get_lock_answers fd params found s s' e = ground (arith, params_roundtrip c w found)
