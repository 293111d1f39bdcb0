-- ===== src/Client/Owner.antt =====
-- `Owner` and `Lockable` of src/owner.rs, and the two drops that send a request: from the calls of a client
-- down to the socket. Closing descriptors is left out.
use ulockmgr.Prelude.{ℕ, List}
use ulockmgr.IoError.{IoError, Result, ok, err, map_ok, Errnos}
use ulockmgr.Messages.Traits.{OwnedFd, Serializable, Replyable}
use ulockmgr.Messages.Raw.{RawMessage}
use ulockmgr.Messages.Ping.{Ping}
use ulockmgr.Messages.Ping
use ulockmgr.Messages.Register.{Register}
use ulockmgr.Messages.Register
use ulockmgr.Messages.Unregister.{Unregister}
use ulockmgr.Messages.Unregister
use ulockmgr.Messages.RemoveInterrupt.{RemoveInterrupt}
use ulockmgr.Messages.RemoveInterrupt
use ulockmgr.Messages.LockCommand.{ReplyLockCommandData}
use ulockmgr.Messages.RequestSpawnOwner.{Duration, RequestSpawnOwner, new_request}
use ulockmgr.Messages.RequestSpawnOwner
use ulockmgr.Client.Calls.{FetchedReplyResult, flatten}
use ulockmgr.Wire.Net.{Net, Io, lift, call, ◌>>=◌}
use ulockmgr.Wire.Request.{Codec, send_request_iter_with_fds, next, first_item, await_reply}

-- A process that is a client: its sockets, its signal mask, and `try_clone_to_owned`. The codecs are
-- those of what it sends and of the replies that it reads.
pub record Client : Type 1 where
  pub net : Net
  pub SigSet : Type 0
  pub block_all_signals : net.World → Result SigSet IoError × net.World
  pub restore : SigSet → net.World → net.World
  pub try_clone_to_owned : OwnedFd → net.World → Result OwnedFd ℕ × net.World
  pub errnos : Errnos
  pub raw_message : Codec RawMessage
  pub duration : Codec Duration
  pub unit_reply : Codec (Result (Unit {0}) ℕ)
  pub id_reply : Codec (Result ℕ ℕ)
  pub lock_reply : Codec (Result ReplyLockCommandData ℕ)

-- `RawLockable`
pub record RawLockable : Type 0 where
  pub owner : OwnedFd
  pub id : ℕ

module _ (c : Client) where
  open c use {net, SigSet, block_all_signals, restore, try_clone_to_owned, errnos}

  abbrev pub World : Type 0
  World = net.World

  -- A body under `let _restore = helpers::block_all_signals()?;`
  unfoldable pub masked : {A : Type 0} → Io net A → Io net A
  masked body w =
      let (r, w') = block_all_signals w in
      elim r [ err e ↦ (err e, w') | ok old ↦ let (a, w'') = body w' in (a, restore old w'') ]

  module _ {M : Type 0} (s : Serializable M) (r : Replyable M) (p : Codec s.Payload)
      (reply : Codec (Result r.ReplyType ℕ)) where
    -- `messages::send_request`
    unfoldable pub send_request : OwnedFd → M → World → FetchedReplyResult r.ReplyType × World
    send_request socket request w =
        let (sent, w') = send_request_iter_with_fds net s p socket request w in
        elim sent [ err e ↦ (err e, w') | ok oneshot ↦ await_reply net errnos reply oneshot w' ]

    -- `messages::send_request_with_fds`
    unfoldable pub send_request_with_fds :
        OwnedFd → M → World → FetchedReplyResult (r.ReplyType × List OwnedFd) × World
    send_request_with_fds socket request w =
        let (sent, w') = send_request_iter_with_fds net s p socket request w in
        elim sent [
          | err e ↦ (err e, w')
          | ok oneshot ↦
              let (item, w'') = next net errnos reply oneshot w' in
              (first_item net errnos reply item, w'')
        ]

  -- `Owner::ping`, for the owner at a socket.
  unfoldable pub ping : OwnedFd → Io net (Unit {0})
  ping owner = masked λ w.
      let (r, w') =
        send_request Ping.serializable Ping.replyable c.raw_message c.unit_reply owner Ping.ping
          w in
      (flatten r, w')

  -- `Owner::register`
  unfoldable pub register : OwnedFd → OwnedFd → Io net RawLockable
  register owner fd = masked do
    cloned ← call (try_clone_to_owned fd)
    id ← λ w.
        let (r, w') =
          send_request Register.serializable Register.replyable c.raw_message c.id_reply owner
            (record { fd = cloned }) w in
        (flatten r, w')
    lift (ok (record { owner = owner; id = id }))

  -- `Lockable::drop`: an error is only logged.
  unfoldable pub drop_lockable : RawLockable → World → World
  drop_lockable l w =
      (send_request Unregister.serializable Unregister.replyable c.raw_message c.unit_reply l.owner
        (record { id = l.id }) w).1

  -- `Interruptable::drop`, for the ID of the interrupt.
  unfoldable pub drop_interruptable : RawLockable → ℕ → World → World
  drop_interruptable l id w =
      (send_request RemoveInterrupt.serializable RemoveInterrupt.replyable c.raw_message
        c.unit_reply l.owner (record { id = id }) w).1

  -- The request of `get_or_create_owner` for a new owner, after both `?`.
  unfoldable pub spawn : OwnedFd → Duration → Io net (List OwnedFd)
  spawn coordinator ttl w =
      let (r, w') =
        send_request_with_fds RequestSpawnOwner.serializable RequestSpawnOwner.replyable c.duration
          c.unit_reply coordinator (new_request ttl) w in
      (map_ok (λ reply. reply.1) (flatten r), w')
