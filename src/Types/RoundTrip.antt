-- ===== src/Types/RoundTrip.antt =====
-- Round trips of the conversions of src/types.rs.
use ulockmgr.Prelude.{ℕ, ◌^◌, ◌<◌, ◌≡◌, arith}
use ulockmgr.IoError.{ok}
use ulockmgr.Types.Encoding.{
  Libc, IsLibc, LockAction, set_lock_non_blocking, set_lock_blocking, get_lock_status, LockType,
  read, write, unlock, LockWhence, LockParams, Flock, as_i16, as_i32, action_try_from,
  action_into_i32, type_try_from, type_into_i16, type_into_i32, whence_try_from, whence_into_i16,
  whence_into_i32, params_try_from, params_into_flock,
}

-- A constant that fits a non-negative i16 survives the narrowing and widening casts.
as_i32-as_i16 : (x : ℕ) → x < 2 ^ 15 → as_i32 (as_i16 x) ≡ x
unfolding as_i16 as_i32
as_i32-as_i16 x h = ground arith

module _ (c : Libc) (w : IsLibc c) where
  open w use {actions_differ, types_differ, whences_differ, types_fit, whences_fit}

  -- Every lock action is read back from the command number that it is written as.
  pub action_roundtrip : (a : LockAction) → action_try_from c (action_into_i32 c a) ≡ ok a
  unfolding action_try_from action_into_i32
  action_roundtrip set_lock_non_blocking = ground arith
  action_roundtrip set_lock_blocking = ground arith
  action_roundtrip get_lock_status = ground arith

  pub type_roundtrip : (t : LockType) → type_try_from c (type_into_i32 c t) ≡ ok t
  unfolding type_try_from type_into_i32 type_into_i16 as_i32
  type_roundtrip read = ground arith
  type_roundtrip write = ground arith
  type_roundtrip unlock = ground arith

  pub whence_roundtrip : (t : LockWhence) → whence_try_from c (whence_into_i32 c t) ≡ ok t
  unfolding whence_try_from whence_into_i32 whence_into_i16 as_i32
  whence_roundtrip LockWhence.start = ground arith
  whence_roundtrip LockWhence.current = ground arith
  whence_roundtrip LockWhence.end = ground arith

  -- With constants that differ and fit, lock parameters written as a `flock` are read back unchanged.
  pub params_roundtrip : (p : LockParams) → params_try_from c (params_into_flock c p) ≡ ok p
  unfolding params_try_from params_into_flock type_into_i32 whence_into_i32
  params_roundtrip p = ground (arith, type_roundtrip p.lock_type, whence_roundtrip p.whence)

  -- With such constants, a `flock` of 16-bit type and whence that is accepted is written back as it was read, field by field.
  pub params_into_flock-params_try_from :
      (f : Flock) (p : LockParams)
      → f.l_type < 2 ^ 16
      → f.l_whence < 2 ^ 16
      → params_try_from c f ≡ ok p
      → params_into_flock c p ≡ f
  unfolding params_try_from params_into_flock type_try_from type_into_i16 whence_try_from
      whence_into_i16 as_i32
  params_into_flock-params_try_from f p ht hw h = ground arith
