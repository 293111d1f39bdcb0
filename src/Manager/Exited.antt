-- ===== src/Manager/Exited.antt =====
-- A registration that reaches an owner process after it has marked itself as exited: src/owner.rs and
-- src/lib.rs together.
use ulockmgr.Prelude.{ℕ, suc, ◌≡◌, true, false, none, some, arith}
use ulockmgr.IoError.{IoError, os, uncategorized, Result, ok, err, Errnos, kind, io_cvt, errno_of}
use ulockmgr.Messages.Register.{Register}
use ulockmgr.Kernel.{SigHandler}
use ulockmgr.Daemon.State.{DaemonOwnerInner, acquire_exit_lock}
use ulockmgr.Daemon.Handlers.{handle_fd_register}
use ulockmgr.Client.Calls.{flatten, received}
use ulockmgr.Manager.Owners.{
  Peers, LockManager, is_broken_pipe, get_or_create_owner, owner_is_gone, register_file,
}

exited_refuses :
    (n : Errnos) (ret errno : ℕ) (action : SigHandler) (d d' : DaemonOwnerInner)
    (message : Register) (r : Result ℕ IoError)
    → d.exit_lock ≡ true
    → handle_fd_register ret errno action d message ≡ some (r, d')
    → flatten (received (io_cvt n r)) ≡ err (os n.eio)
unfolding handle_fd_register acquire_exit_lock received io_cvt errno_of
exited_refuses n ret errno action d d' message r exited e = ground arith

-- An error that is no broken pipe is returned at once.
register_returns :
    (p : Peers) (n : Errnos) (rounds fuel owner_id fd owner : ℕ) (m m' : LockManager)
    (w w' w'' : p.World) (x : IoError)
    → get_or_create_owner p n fuel owner_id none m w ≡ some (ok owner, m', w')
    → p.register owner fd w' ≡ (err x, w'')
    → is_broken_pipe p n (kind n x) ≡ false
    → register_file p n (suc rounds) fuel owner_id fd m w ≡ some (err x, m', w'')
unfolding register_file owner_is_gone
register_returns p n rounds fuel owner_id fd owner m m' w w' w'' x found answered no_pipe =
    ground (arith, found, answered, no_pipe)

-- An owner that has exited answers a registration with a broken pipe, which goes over the socket as
-- EIO, a number that is not decoded to a kind of its own; so
-- the client's `register` does not see a broken pipe, and returns the error instead of asking for
-- another owner, whatever the fuel.
pub exited_owner_not_replaced :
    (p : Peers) (n : Errnos) (rounds fuel owner_id fd owner : ℕ) (m m' : LockManager)
    (w w' w'' : p.World) (ret errno : ℕ) (action : SigHandler) (d d' : DaemonOwnerInner)
    (message : Register) (r : Result ℕ IoError)
    → n.decode_error_kind n.eio ≡ uncategorized
    → get_or_create_owner p n fuel owner_id none m w ≡ some (ok owner, m', w')
    → d.exit_lock ≡ true
    → handle_fd_register ret errno action d message ≡ some (r, d')
    → p.register owner fd w' ≡ (flatten (received (io_cvt n r)), w'')
    → register_file p n (suc rounds) fuel owner_id fd m w ≡ some (err (os n.eio), m', w'')
exited_owner_not_replaced p n rounds fuel owner_id fd owner m m' w w' w'' ret errno action d d'
      message r decoded found exited handled answered =
    let e = exited_refuses n ret errno action d d' message r exited handled in
    register_returns p n rounds fuel owner_id fd owner m m' w w' w'' (os n.eio) found
      (ground (arith, answered, e)) (unfold kind in rw decoded)
