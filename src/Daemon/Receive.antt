-- ===== src/Daemon/Receive.antt =====
-- `owner_receiving_loop` of src/owner.rs: which requests it handles, and when it ends.
-- What `receive_request` gave in each round is given, with what the operating system answers to
-- the handler. A reply is sent on the descriptor that came with the request.
pub mod Garbage
pub mod Path
pub mod Refines
pub mod Loop
use ulockmgr.Prelude.{ℕ, Bool, true, false, Option, none, some, List, [], ◌∷◌, ◌||◌, if◌then◌else◌}
use ulockmgr.IoError.{
  IoError, ErrorKind, broken_pipe, unexpected_eof, invalid_input, invalid_data, Result, ok, err,
  Errnos, kind, io_cvt,
}
use ulockmgr.Types.{Libc}
use ulockmgr.Kernel.{Kernel, SigHandler, block_all_signals}
use ulockmgr.Messages.Traits.{OwnedFd, Reply}
use ulockmgr.Messages.Ping
use ulockmgr.Messages.Interrupt
use ulockmgr.Messages.RemoveInterrupt
use ulockmgr.Messages.Register
use ulockmgr.Messages.Unregister
use ulockmgr.Messages.LockCommand
use ulockmgr.Messages.Register.{ReplyRegister}
use ulockmgr.Messages.LockCommand.{ReplyLockCommand}
use ulockmgr.Messages.Interrupt.{Interrupt, ReplyInterrupt}
use ulockmgr.Messages.Unregister.{Unregister, ReplyUnregister}
use ulockmgr.Messages.Message.{
  Message, ping, interrupt, remove_interrupt, register, unregister, lock_command,
}
use ulockmgr.Daemon.State.{DaemonOwnerInner}
use ulockmgr.Daemon.Handlers.{handle_interrupt_remove, handle_fd_register}
use ulockmgr.Daemon.Command.{Handled, handle_lock_command}

-- What the loop does, in order.
pub data Action : Type 0 where
  refresh : Action  -- `ttl_sender.try_send(())`
  reply_unit : Reply (Unit {0}) → Result (Unit {0}) ℕ → Action
  reply_id : ReplyRegister → Result ℕ ℕ → Action
  interrupting : ReplyInterrupt → Interrupt → Action  -- a thread is started
  unregistering : ReplyUnregister → Unregister → Action  -- a thread is started
  locking : ReplyLockCommand → Handled → Action

-- One round: the request, what `sigaction` answers, and the number of a new thread.
pub record Incoming : Type 0 where
  pub request : Result (Message × OwnedFd) IoError
  pub ret : ℕ
  pub errno : ℕ
  pub handler : SigHandler
  pub thread : Option ℕ

-- How an error of `receive_request` is taken.
pub data Verdict : Type 0 where
  hang_up recoverable fatal : Verdict

unfoldable pub verdict : ErrorKind → Verdict
verdict broken_pipe = hang_up
verdict unexpected_eof = recoverable
verdict invalid_input = recoverable
verdict invalid_data = recoverable
verdict _ = fatal

-- `waiting`: the rounds given are over, and the loop waits for the next request.
pub data Ending : Type 0 where
  waiting : Ending
  returned : Result (Unit {0}) IoError → Ending

module _ (k : Kernel) (c : Libc) (n : Errnos) where
  open k use {World}

  -- The match on the message. `none`: an ID loop has not ended, or an address dangles.
  unfoldable pub dispatch :
      Incoming
      → Message
      → OwnedFd
      → DaemonOwnerInner
      → World
      → Option (Action × DaemonOwnerInner × World)
  dispatch i (ping _) fd d w = some (reply_unit (Ping.create_reply fd) (ok tt), d, w)
  dispatch i (interrupt m) fd d w = some (interrupting (Interrupt.create_reply fd) m, d, w)
  dispatch i (remove_interrupt m) fd d w =
      let (r, d') = handle_interrupt_remove d m in
      some (reply_unit (RemoveInterrupt.create_reply fd) (io_cvt n r), d', w)
  dispatch i (register m) fd d w = elim (handle_fd_register i.ret i.errno i.handler d m) [
    | none ↦ none
    | some (r, d') ↦ some (reply_id (Register.create_reply fd) (io_cvt n r), d', w)
  ]
  dispatch i (unregister m) fd d w = some (unregistering (Unregister.create_reply fd) m, d, w)
  dispatch i (lock_command m) fd d w = elim (handle_lock_command k c n m i.thread d w) [
    | none ↦ none
    | some (h, d', w') ↦ some (locking (LockCommand.create_reply fd) h, d', w')
  ]

  -- The loop. The result has what was done, oldest first, and the state that is left.
  unfoldable pub receive_loop :
      List Incoming
      → DaemonOwnerInner
      → World
      → Option (Ending × List Action × DaemonOwnerInner × World)
  receive_loop [] d w = some (waiting, [], d, w)
  receive_loop (i ∷ is) d w = elim i.request [
    | err e ↦ elim (verdict (kind n e)) [
      | hang_up ↦ some (returned (ok tt), [], d, w)
      | recoverable ↦ elim (receive_loop is d w) [
        | none ↦ none
        | some (end, done, d', w') ↦ some (end, refresh ∷ done, d', w')
      ]
      | fatal ↦ some (returned (err e), [], d, w)
    ]
    | ok (m, fd) ↦ elim (dispatch i m fd d w) [
      | none ↦ none
      | some (a, d', w') ↦ elim (receive_loop is d' w') [
        | none ↦ none
        | some (end, done, d'', w'') ↦ some (end, refresh ∷ a ∷ done, d'', w'')
      ]
    ]
  ]

  -- `owner_receiving_loop`, with the signals blocked first.
  unfoldable pub owner_receiving_loop :
      List Incoming
      → DaemonOwnerInner
      → World
      → Option (Ending × List Action × DaemonOwnerInner × World)
  owner_receiving_loop is d w =
      let (r, w') = block_all_signals k w in
      elim r [ err e ↦ some (returned (err e), [], d, w') | ok _ ↦ receive_loop is d w' ]
