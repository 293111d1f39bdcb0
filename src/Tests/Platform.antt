-- ===== src/Tests/Platform.antt =====
-- The constants of Linux on x86_64, and a kernel with one lock.
use ulockmgr.Prelude.{ℕ, refl, Bool, true, false, arith, ◌==◌, if◌then◌else◌}
use ulockmgr.IoError.{ErrorKind, would_block, interrupted, uncategorized, Result, ok, err, Errnos}
use ulockmgr.Types.{Libc, IsLibc, Flock, LockParams, write, LockWhence}
use ulockmgr.Kernel.{Kernel}
use ulockmgr.Protocol.Blocking.{Masks}

abbrev pub linux : Libc
linux = record {
  f_setlk = 6;
  f_setlkw = 7;
  f_getlk = 5;
  f_rdlck = 0;
  f_wrlck = 1;
  f_unlck = 2;
  seek_set = 0;
  seek_cur = 1;
  seek_end = 2;
}

pub linux-IsLibc : IsLibc linux
linux-IsLibc = record {
  actions_differ = (omega arith, omega arith, omega arith);
  types_differ = (omega arith, omega arith, omega arith);
  whences_differ = (omega arith, omega arith, omega arith);
  types_fit = (omega arith, omega arith, omega arith);
  whences_fit = (omega arith, omega arith, omega arith);
}

abbrev pub decode : ℕ → ErrorKind
decode e = if e == 4 then interrupted else if e == 11 then would_block else uncategorized

abbrev pub errnos : Errnos
errnos = record {
  enoent = 2;
  eperm = 1;
  econnrefused = 111;
  econnreset = 104;
  econnaborted = 103;
  enotconn = 107;
  eaddrinuse = 98;
  eaddrnotavail = 99;
  etimedout = 110;
  ewouldblock = 11;
  eexist = 17;
  einval = 22;
  edeadlock = 35;
  eio = 5;
  eagain = 11;
  decode_error_kind = decode;
}

-- The whole file, for writing.
abbrev pub whole_file : LockParams
whole_file = record { lock_type = write; whence = LockWhence.start; start = 0; len = 0; pid = 0 }

-- Who holds the one lock: this owner, or another process, which lets go when it is waited for.
pub data World : Type 0 where
  nobody this_owner another : World

abbrev pub setlk : ℕ → Flock → World → Result (Unit {0}) ℕ × World
setlk fd lock another = (err 11, another)
setlk fd lock _ = (ok tt, this_owner)

abbrev pub toy_kernel : Kernel
toy_kernel = record {
  World = World;
  SigSet = Bool;
  all = true;
  sigusr1 = false;
  sig_block = λ _ w. (ok false, w);
  sig_unblock = λ _ w. (ok true, w);
  sig_setmask = λ _ w. (ok true, w);
  getlk = λ _ lock w. (ok lock, w);
  setlk = setlk;
  setlkw = λ _ _ _. (ok tt, this_owner);
}

pub masks : Masks toy_kernel
masks = record { block = λ s. (false, refl); unblock = λ s. (true, refl) }
