-- ===== src/Protocol/NonBlocking.antt =====
-- The commands that do not wait, from end to end: `get_lock` and `set_lock_nonblocking` of the client over
-- the reply of `handle_lock_command`, both of src/owner.rs.
use ulockmgr.Prelude.{ℕ, ◌≡◌, refl, Option, some}
use ulockmgr.Prelude.Assoc.{get}
use ulockmgr.IoError.{os, Result, ok, err, map_ok, map_err, Errnos}
use ulockmgr.Types.{
  Libc, IsLibc, LockParams, set_lock_non_blocking, get_lock_status, params_into_flock,
}
use ulockmgr.Messages.LockCommand.{done}
use ulockmgr.Kernel.{Kernel}
use ulockmgr.Daemon.State.{FdData, DaemonOwnerInner, clone_arc, drop_arc}
use ulockmgr.Daemon.Lock.{LockReply}
use ulockmgr.Daemon.Lock
use ulockmgr.Daemon.Lock.Replies.{set_lock_answers, get_lock_answers}
use ulockmgr.Daemon.Command.{replied, run_command, handle_lock_command}
use ulockmgr.Client.Calls.{received, expect_done, get_lock, set_lock_nonblocking}

module _ (k : Kernel) (c : Libc) (n : Errnos) (l : IsLibc c) where
  open k use {World, setlk, getlk}

  pub client_set :
      (params : LockParams) (r : Result (Unit {0}) ℕ)
      → set_lock_nonblocking (ok tt) (received (map_ok (λ _. done params) r))
        ≡ map_ok (λ _. params) (map_err os r)
  unfolding set_lock_nonblocking received expect_done
  client_set params (ok _) = refl
  client_set params (err e) = refl

  -- A non-blocking lock on a file that is registered is tried on its descriptor, without a thread:
  -- the client gets back what it asked for if the kernel grants the lock, and otherwise the error
  -- of the kernel.
  pub set_lock_nonblocking_refines :
      (id a : ℕ) (x : FdData) (params : LockParams) (thread : Option ℕ) (d : DaemonOwnerInner)
      (w : World)
      → get id d.descriptors ≡ some a
      → get a d.heap ≡ some x
      → (reply : LockReply) × (d' : DaemonOwnerInner) × (w' : World) × (handle_lock_command k c n
            (record { id = id; action = set_lock_non_blocking; params = params })
            thread
            d
            w
          ≡ some (replied reply, d', w'))
        × (set_lock_nonblocking (ok tt) (received reply)
            ≡ map_ok
                (λ _. params)
                (map_err os (setlk x.descriptor (params_into_flock c params) w).0))
        × (w' ≡ (setlk x.descriptor (params_into_flock c params) w).1)
  unfolding handle_lock_command run_command
  set_lock_nonblocking_refines id a x params thread d w e f = (
    (Lock.set_lock k c n x.descriptor params w).0,
    drop_arc a (clone_arc a d),
    (Lock.set_lock k c n x.descriptor params w).1,
    rw (e, f, handle_lock_command) refl,
    rw (set_lock_answers k c n l x.descriptor params w)
        (client_set params (setlk x.descriptor (params_into_flock c params) w).0),
    unfold Lock.set_lock in refl,
  )

  -- A status query on a file that is registered gives the client the lock that the kernel reports.
  pub get_lock_refines :
      (id a : ℕ) (x : FdData) (params found : LockParams) (thread : Option ℕ) (d : DaemonOwnerInner)
      (w w' : World)
      → get id d.descriptors ≡ some a
      → get a d.heap ≡ some x
      → getlk x.descriptor (params_into_flock c params) w ≡ (ok (params_into_flock c found), w')
      → (reply : LockReply) × (d' : DaemonOwnerInner) × (handle_lock_command k c n
            (record { id = id; action = get_lock_status; params = params })
            thread
            d
            w
          ≡ some (replied reply, d', w'))
        × (get_lock (ok tt) (received reply) ≡ ok found)
  unfolding handle_lock_command run_command get_lock received expect_done
  get_lock_refines id a x params found thread d w w' e f q = (
    ok (done found),
    drop_arc a (clone_arc a d),
    rw (e, f, handle_lock_command, get_lock_answers k c n l x.descriptor params found w w' q) refl,
    refl,
  )
