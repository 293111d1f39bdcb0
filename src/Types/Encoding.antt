-- ===== src/Types/Encoding.antt =====
-- The enumerations of src/types.rs and their conversions to and from C integers.
use ulockmgr.Prelude.{ℕ, ◌+◌, ◌-◌, ◌%◌, ◌^◌, ◌<◌, ◌≢◌, ltb, ◌==◌, if◌then◌else◌}
use ulockmgr.IoError.{IoError, custom, invalid_input, Result, ok, err, ◌>>=◌, map_err}

-- The constants of the libc crate.
pub record Libc : Type 0 where
  pub f_setlk : ℕ
  pub f_setlkw : ℕ
  pub f_getlk : ℕ
  pub f_rdlck : ℕ
  pub f_wrlck : ℕ
  pub f_unlck : ℕ
  pub seek_set : ℕ
  pub seek_cur : ℕ
  pub seek_end : ℕ

-- What the conversions rely on: the constants of a family differ, and fit a non-negative i16.
pub record IsLibc (c : Libc) : Type 0 where
  pub actions_differ : (c.f_setlk ≢ c.f_setlkw) × (c.f_setlk ≢ c.f_getlk) × (c.f_setlkw ≢ c.f_getlk)
  pub types_differ : (c.f_rdlck ≢ c.f_wrlck) × (c.f_rdlck ≢ c.f_unlck) × (c.f_wrlck ≢ c.f_unlck)
  pub whences_differ :
      (c.seek_set ≢ c.seek_cur) × (c.seek_set ≢ c.seek_end) × (c.seek_cur ≢ c.seek_end)
  pub types_fit : (c.f_rdlck < 2 ^ 15) × (c.f_wrlck < 2 ^ 15) × (c.f_unlck < 2 ^ 15)
  pub whences_fit : (c.seek_set < 2 ^ 15) × (c.seek_cur < 2 ^ 15) × (c.seek_end < 2 ^ 15)

-- `x as i16` of an i32, and `x as i32` of an i16, on bit patterns.
unfoldable pub as_i16 : ℕ → ℕ
as_i16 x = x % 2 ^ 16

unfoldable pub as_i32 : ℕ → ℕ
as_i32 x = if ltb x (2 ^ 15) then x else x + 2 ^ 32 - 2 ^ 16

pub data LockAction : Type 0 where
  set_lock_non_blocking set_lock_blocking get_lock_status : LockAction

pub data LockType : Type 0 where
  read write unlock : LockType

pub data LockWhence : Type 0 where
  start current end : LockWhence

pub record LockParams : Type 0 where
  pub lock_type : LockType
  pub whence : LockWhence
  pub start : ℕ  -- off_t
  pub len : ℕ  -- off_t
  pub pid : ℕ  -- pid_t

-- `libc::flock`
pub record Flock : Type 0 where
  pub l_type : ℕ  -- i16
  pub l_whence : ℕ  -- i16
  pub l_start : ℕ
  pub l_len : ℕ
  pub l_pid : ℕ

module _ (c : Libc) where
  unfoldable pub action_try_from : ℕ → Result LockAction IoError
  action_try_from v =
      if v == c.f_setlk
      then ok set_lock_non_blocking
      else if v == c.f_setlkw
      then ok set_lock_blocking
      else if v == c.f_getlk
      then ok get_lock_status
      else err (custom invalid_input)

  unfoldable pub action_into_i32 : LockAction → ℕ
  action_into_i32 set_lock_non_blocking = c.f_setlk
  action_into_i32 set_lock_blocking = c.f_setlkw
  action_into_i32 get_lock_status = c.f_getlk

  unfoldable pub type_try_from : ℕ → Result LockType IoError
  type_try_from v =
      if v == c.f_rdlck
      then ok read
      else if v == c.f_wrlck
      then ok write
      else if v == c.f_unlck
      then ok unlock
      else err (custom invalid_input)

  unfoldable pub type_into_i16 : LockType → ℕ
  unfolding as_i16
  type_into_i16 read = as_i16 c.f_rdlck
  type_into_i16 write = as_i16 c.f_wrlck
  type_into_i16 unlock = as_i16 c.f_unlck

  unfoldable pub type_into_i32 : LockType → ℕ
  type_into_i32 t = as_i32 (type_into_i16 t)

  unfoldable pub whence_try_from : ℕ → Result LockWhence IoError
  whence_try_from v =
      if v == c.seek_set
      then ok LockWhence.start
      else if v == c.seek_cur
      then ok LockWhence.current
      else if v == c.seek_end
      then ok LockWhence.end
      else err (custom invalid_input)

  unfoldable pub whence_into_i16 : LockWhence → ℕ
  unfolding as_i16
  whence_into_i16 LockWhence.start = as_i16 c.seek_set
  whence_into_i16 LockWhence.current = as_i16 c.seek_cur
  whence_into_i16 LockWhence.end = as_i16 c.seek_end

  unfoldable pub whence_into_i32 : LockWhence → ℕ
  whence_into_i32 w = as_i32 (whence_into_i16 w)

  unfoldable pub params_try_from : Flock → Result LockParams IoError
  params_try_from v = do
    lock_type ← map_err (λ _. custom invalid_input) (type_try_from (as_i32 v.l_type))
    whence ← map_err (λ _. custom invalid_input) (whence_try_from (as_i32 v.l_whence))
    ok (record {
      lock_type = lock_type;
      whence = whence;
      start = v.l_start;
      len = v.l_len;
      pid = v.l_pid;
    })

  unfoldable pub params_into_flock : LockParams → Flock
  params_into_flock p = record {
    l_type = type_into_i16 p.lock_type;
    l_whence = whence_into_i16 p.whence;
    l_start = p.start;
    l_len = p.len;
    l_pid = p.pid;
  }
