-- ===== src/Kernel.antt =====
-- The system calls of src/helpers.rs and src/owner.rs, as an interface, and the helpers over them.
-- Nothing is assumed of an answer; a theorem that relies on the kernel names what it relies on.
use ulockmgr.Prelude.{ℕ, ◌-◌, ◌^◌, ◌==◌, if◌then◌else◌}
use ulockmgr.IoError.{IoError, os, custom, invalid_input, Result, ok, err, map_err, ◌>>=◌}
use ulockmgr.Types.{Flock}

pub record Kernel : Type 1 where
  pub World : Type 0
  -- a set of signals
  pub SigSet : Type 0
  pub all : SigSet
  pub sigusr1 : SigSet
  -- `pthread_sigmask` by its first argument; the answer is the old mask, or an error number.
  pub sig_block : SigSet → World → Result SigSet ℕ × World
  pub sig_unblock : SigSet → World → Result SigSet ℕ × World
  pub sig_setmask : SigSet → World → Result SigSet ℕ × World
  -- `fcntl` with F_GETLK, F_SETLK and F_SETLKW on a descriptor.
  pub getlk : ℕ → Flock → World → Result Flock ℕ × World
  pub setlk : ℕ → Flock → World → Result (Unit {0}) ℕ × World
  pub setlkw : ℕ → Flock → World → Result (Unit {0}) ℕ × World

-- What `sigaction` reports as the handler of SIGUSR1.
pub data SigHandler : Type 0 where
  sig_dfl sig_ign function : SigHandler

-- `cvt` of an i32, by its bit pattern: -1 means that the error is in `errno`.
unfoldable pub cvt : (errno : ℕ) → ℕ → Result ℕ IoError
cvt errno t = if t == 2 ^ 32 - 1 then err (os errno) else ok t

accept_handler : SigHandler → Result (Unit {0}) IoError
accept_handler sig_dfl = err (custom invalid_input)
accept_handler sig_ign = err (custom invalid_input)
accept_handler function = ok tt

-- `ensure_sigaction_exists`, given what the call of `sigaction` returns, `errno` and the handler.
unfoldable pub ensure_sigaction_exists : (ret errno : ℕ) → SigHandler → Result (Unit {0}) IoError
unfolding accept_handler
ensure_sigaction_exists ret errno action = cvt errno ret >>= λ _. accept_handler action

module _ (k : Kernel) where
  open k use {World, SigSet, all, sigusr1, sig_block, sig_unblock, sig_setmask}

  -- The result is the `SigSetGuard`, which holds the old mask.
  unfoldable pub block_all_signals : World → Result SigSet IoError × World
  block_all_signals w = let (r, w') = sig_block all w in (map_err os r, w')

  unfoldable pub unblock_signal : World → Result SigSet IoError × World
  unblock_signal w = let (r, w') = sig_unblock sigusr1 w in (map_err os r, w')

  -- `SigSetGuard::drop`: the result is ignored.
  unfoldable pub drop_guard : SigSet → World → World
  drop_guard old w = (sig_setmask old w).1
