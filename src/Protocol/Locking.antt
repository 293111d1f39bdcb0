-- ===== src/Protocol/Locking.antt =====
-- A non-blocking lock from end to end: `Lockable::set_lock_nonblocking` of the client, the socket, and
-- `handle_lock_command` of the owner process, all of src/owner.rs over src/messages.rs.
use ulockmgr.Prelude.{ℕ, ◌≡◌, refl, ap, Option, some, inl, inr, arith, Option-cases}
use ulockmgr.Prelude.Assoc.{get}
use ulockmgr.IoError.{os, Result, ok, map_ok, map_err, Errnos}
use ulockmgr.Types.{Libc, IsLibc, LockParams, set_lock_non_blocking, params_into_flock}
use ulockmgr.Messages.Traits.{OwnedFd}
use ulockmgr.Messages.LockCommand.{LockCommand, ReplyLockCommandData, done}
use ulockmgr.Messages.LockCommand
use ulockmgr.Messages.Message.{Message, lock_command}
use ulockmgr.Messages.Message
use ulockmgr.Kernel.{Kernel}
use ulockmgr.Daemon.State.{FdData, DaemonOwnerInner, clone_arc, drop_arc}
use ulockmgr.Daemon.System.{System, Reach}
use ulockmgr.Daemon.Safety.{Reach-Inv}
use ulockmgr.Daemon.Spec.{file_of, descriptor_at}
use ulockmgr.Daemon.Spec.Files.{brief_clone}
use ulockmgr.Daemon.Lock
use ulockmgr.Daemon.Lock.Replies.{set_lock_answers}
use ulockmgr.Daemon.Command.{replied, run_command, handle_lock_command}
use ulockmgr.Client.Calls.{received}
use ulockmgr.Client.Owner.{Client, RawLockable, masked}
use ulockmgr.Client.Locking.{command, set_lock_nonblocking}
use ulockmgr.Protocol.NonBlocking.{client_set}
use ulockmgr.Protocol.Trip.{Trip, IsCarried, request_answered}

-- The file that an ID names is the one that the handler finds.
pub file_found :
    (id fd : ℕ) (d : DaemonOwnerInner)
    → file_of id d ≡ some fd
    → (a : ℕ) × (x : FdData) × (get id d.descriptors ≡ some a)
      × (get a d.heap ≡ some x)
      × (x.descriptor ≡ fd)
unfolding file_of descriptor_at
file_found id fd d e = elim (Option-cases (get id d.descriptors)) [
  | inl unknown ↦ absurd (ground (arith, e, unknown))
  | inr (a, known) ↦ elim (Option-cases (get a d.heap)) [
    | inl gone ↦ absurd (ground (arith, e, known, gone))
    | inr (x, found) ↦ (a, x, known, found, ground (arith, e, known, found))
  ]
]

-- The command as the owner process sees it, and what it is to answer.
abbrev pub asked : RawLockable → LockParams → LockCommand
asked lockable params = record { id = lockable.id; action = set_lock_non_blocking; params = params }

abbrev pub granted : LockParams → Result (Unit {0}) ℕ → Result ReplyLockCommandData ℕ
granted params r = map_ok (λ _. done params) r

module _ (client : Client) (k : Kernel) (c : Libc) (n : Errnos) (l : IsLibc c) where
  open client use {net, block_all_signals, restore, raw_message, lock_reply}
  open net use {World}
  open k use {setlk, getlk}

  handled :
      (lockable : RawLockable) (fd : ℕ) (params : LockParams) {s : System} (thread : Option ℕ)
      (w : k.World)
      → Reach s
      → file_of lockable.id s.inner ≡ some fd
      → (d' : DaemonOwnerInner) × (handle_lock_command k c n
            (asked lockable params)
            thread
            s.inner
            w
          ≡ some (
            replied (granted params (setlk fd (params_into_flock c params) w).0),
            d',
            (setlk fd (params_into_flock c params) w).1,
          ))
        × ((j : ℕ) → file_of j d' ≡ file_of j s.inner)
  unfolding handle_lock_command run_command Lock.set_lock
  handled lockable fd params {s} thread w r e =
      let (a, x, known, found, same) = file_found lockable.id fd s.inner e in
      let answers = rw same at (set_lock_answers k c n l x.descriptor params w) in
      (
        drop_arc a (clone_arc a s.inner),
        rw (known, found, handle_lock_command, same)
            (ap
              (λ q. some (
                replied q,
                drop_arc a (clone_arc a s.inner),
                (setlk fd (params_into_flock c params) w).1,
              ))
              answers),
        λ j. brief_clone lockable.id a j s (Reach-Inv r) known,
      )

  answered :
      (lockable : RawLockable) (params : LockParams) (old : client.SigSet)
      (answer : Result (Unit {0}) ℕ) (w w₁ w₂ : World)
      → block_all_signals w ≡ (ok old, w₁)
      → command client lockable set_lock_non_blocking params w₁
        ≡ (received (granted params answer), w₂)
      → set_lock_nonblocking client lockable params w
        ≡ (map_ok (λ _. params) (map_err os answer), restore old w₂)
  unfolding set_lock_nonblocking masked
  answered lockable params old answer w w₁ w₂ m e =
      ground (arith, m, e, client_set k c n l params answer)

  -- A client whose ID names a file gets from a non-blocking lock, through the sockets, what the kernel
  -- answers to F_SETLK on that file in the owner process: the parameters if it grants the lock, and
  -- else the error with the kernel's number. The command arrives as it was sent, with the
  -- descriptor to reply on; the owner's reply is the one that is carried back; and after it the IDs name the
  -- files that they named. The owner process is in a reachable state, the client can block the
  -- signals, and the request and the answer are carried.
  pub set_lock_nonblocking_arrives :
      (lockable : RawLockable) (fd : ℕ) (params : LockParams) (thread : Option ℕ)
      (at_owner : OwnedFd) (old : client.SigSet) {s : System} (lock : k.World)
      (w blocked w' : World)
      → Reach s
      → file_of lockable.id s.inner ≡ some fd
      → block_all_signals w ≡ (ok old, blocked)
      → (t : Trip client lock_reply lockable.owner at_owner
          (lock_command (asked lockable params))
          (granted params (setlk fd (params_into_flock c params) lock).0)
          blocked
          w')
      → (d' : DaemonOwnerInner) × IsCarried client t
        × (handle_lock_command k c n (asked lockable params) thread s.inner lock
            ≡ some (
              replied (granted params (setlk fd (params_into_flock c params) lock).0),
              d',
              (setlk fd (params_into_flock c params) lock).1,
            ))
        × ((j : ℕ) → file_of j d' ≡ file_of j s.inner)
        × ((set_lock_nonblocking client lockable params w).0
            ≡ map_ok (λ _. params) (map_err os (setlk fd (params_into_flock c params) lock).0))
  unfolding command Message.serialize
  set_lock_nonblocking_arrives lockable fd params thread at_owner old {s} lock w blocked w' r e m
        t =
      let answer = (setlk fd (params_into_flock c params) lock).0 in
      let (d', done_so, same) = handled lockable fd params {s = s} thread lock r e in
      let (arrived, got) =
        request_answered client LockCommand.serialize LockCommand.deserialize LockCommand.replyable
          lock_reply lockable.owner at_owner (asked lockable params)
          (lock_command (asked lockable params)) (granted params answer) blocked w' refl t in
      (
        d',
        arrived,
        done_so,
        same,
        ap (λ p. p.0) (answered lockable params old answer w blocked w' m got),
      )
