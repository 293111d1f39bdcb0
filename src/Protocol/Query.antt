-- ===== src/Protocol/Query.antt =====
-- A status query from end to end: `Lockable::get_lock` of the client, the socket, and `handle_lock_command`
-- of the owner process, all of src/owner.rs over src/messages.rs.
use ulockmgr.Prelude.{ℕ, ◌≡◌, refl, ap, Option, some, arith}
use ulockmgr.IoError.{ok, Errnos}
use ulockmgr.Types.{Libc, IsLibc, LockParams, get_lock_status, params_into_flock}
use ulockmgr.Messages.Traits.{OwnedFd}
use ulockmgr.Messages.LockCommand.{LockCommand, ReplyLockCommandData, done}
use ulockmgr.Messages.LockCommand
use ulockmgr.Messages.Message.{Message, lock_command}
use ulockmgr.Messages.Message
use ulockmgr.Kernel.{Kernel}
use ulockmgr.Daemon.State.{DaemonOwnerInner, clone_arc, drop_arc}
use ulockmgr.Daemon.System.{System, Reach}
use ulockmgr.Daemon.Safety.{Reach-Inv}
use ulockmgr.Daemon.Spec.{file_of}
use ulockmgr.Daemon.Spec.Files.{brief_clone}
use ulockmgr.Daemon.Lock.Replies.{get_lock_answers}
use ulockmgr.Daemon.Command.{replied, run_command, handle_lock_command}
use ulockmgr.Client.Calls.{expect_done, received}
use ulockmgr.Client.Owner.{Client, RawLockable, masked}
use ulockmgr.Client.Locking.{command, get_lock}
use ulockmgr.Protocol.Trip.{Trip, IsCarried, request_answered}
use ulockmgr.Protocol.Locking.{file_found}
use ulockmgr.Client.Calls

abbrev pub queried : RawLockable → LockParams → LockCommand
queried lockable params = record { id = lockable.id; action = get_lock_status; params = params }

module _ (client : Client) (k : Kernel) (c : Libc) (n : Errnos) (l : IsLibc c) where
  open client use {net, block_all_signals, restore, raw_message, lock_reply}
  open net use {World}
  open k use {getlk}

  get_handled :
      (lockable : RawLockable) (fd : ℕ) (params found : LockParams) {s : System} (thread : Option ℕ)
      (w w' : k.World)
      → Reach s
      → file_of lockable.id s.inner ≡ some fd
      → getlk fd (params_into_flock c params) w ≡ (ok (params_into_flock c found), w')
      → (d' : DaemonOwnerInner) × (handle_lock_command k c n
            (queried lockable params)
            thread
            s.inner
            w
          ≡ some (replied (ok (done found)), d', w'))
        × ((j : ℕ) → file_of j d' ≡ file_of j s.inner)
  unfolding handle_lock_command run_command
  get_handled lockable fd params found {s} thread w w' r e q =
      let (a, x, known, opened, same) = file_found lockable.id fd s.inner e in
      let answers = get_lock_answers k c n l x.descriptor params found w w' (rw same q) in
      (
        drop_arc a (clone_arc a s.inner),
        rw (known, opened, handle_lock_command, answers) refl,
        λ j. brief_clone lockable.id a j s (Reach-Inv r) known,
      )

  get_answered :
      (lockable : RawLockable) (params found : LockParams) (old : client.SigSet) (w w₁ w₂ : World)
      → block_all_signals w ≡ (ok old, w₁)
      → command client lockable get_lock_status params w₁ ≡ (received (ok (done found)), w₂)
      → get_lock client lockable params w ≡ (ok found, restore old w₂)
  unfolding get_lock masked Calls.get_lock received expect_done
  get_answered lockable params found old w w₁ w₂ m e = ground (arith, m, e)

  -- A client whose ID names a file gets from a status query, through the sockets, the lock that the
  -- kernel reports for F_GETLK on that file in the owner process. The query arrives as it was
  -- sent, with the descriptor to reply on; the owner's reply is the one that is carried back; and
  -- after it the IDs name the files that they named. The owner process is in a reachable state,
  -- the kernel answers, the client can block the signals, and the request and the answer are
  -- carried.
  pub get_lock_arrives :
      (lockable : RawLockable) (fd : ℕ) (params found : LockParams) (thread : Option ℕ)
      (at_owner : OwnedFd) (old : client.SigSet) {s : System} (lock lock' : k.World)
      (w blocked w' : World)
      → Reach s
      → file_of lockable.id s.inner ≡ some fd
      → getlk fd (params_into_flock c params) lock ≡ (ok (params_into_flock c found), lock')
      → block_all_signals w ≡ (ok old, blocked)
      → (t : Trip client lock_reply lockable.owner at_owner
          (lock_command (queried lockable params))
          (ok (done found))
          blocked
          w')
      → (d' : DaemonOwnerInner) × IsCarried client t
        × (handle_lock_command k c n (queried lockable params) thread s.inner lock
            ≡ some (replied (ok (done found)), d', lock'))
        × ((j : ℕ) → file_of j d' ≡ file_of j s.inner)
        × ((get_lock client lockable params w).0 ≡ ok found)
  unfolding command Message.serialize
  get_lock_arrives lockable fd params found thread at_owner old {s} lock lock' w blocked w' r e q m
        t =
      let (d', done_so, same) =
        get_handled lockable fd params found {s = s} thread lock lock' r e q in
      let (arrived, got) =
        request_answered client LockCommand.serialize LockCommand.deserialize LockCommand.replyable
          lock_reply lockable.owner at_owner (queried lockable params)
          (lock_command (queried lockable params)) (ok (done found)) blocked w' refl t in
      (
        d',
        arrived,
        done_so,
        same,
        ap (λ p. p.0) (get_answered lockable params found old w blocked w' m got),
      )
