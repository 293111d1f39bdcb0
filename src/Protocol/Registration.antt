-- ===== src/Protocol/Registration.antt =====
-- A registration from end to end: `Owner::register` of the client, the socket, and the handler of the owner
-- process, all of src/owner.rs over src/messages.rs.
use ulockmgr.Prelude.{ℕ, ◌≡◌, refl, ap, arith}
use ulockmgr.IoError.{os, Result, ok, err, map_ok, map_err}
use ulockmgr.Messages.Traits.{OwnedFd}
use ulockmgr.Messages.Register.{Register}
use ulockmgr.Messages.Register
use ulockmgr.Messages.Message.{Message, register}
use ulockmgr.Messages.Message
use ulockmgr.Client.Calls.{received}
use ulockmgr.Client.Owner.{Client, RawLockable, masked, send_request}
use ulockmgr.Client.Owner
use ulockmgr.Protocol.Trip.{Trip, IsCarried, request_answered}

module _ (c : Client) where
  open c use {net, block_all_signals, restore, try_clone_to_owned, errnos, raw_message, id_reply}
  open net use {World, socketpair, sendmsg}

  -- What the client relies on for one registration: that it can block the signals and clone the
  -- descriptor, and that its request and the answer are carried.
  pub record Carries (owner at_owner fd cloned : OwnedFd) (answer : Result ℕ ℕ) (w w' : World)
      : Type 0 where
    pub blocked : World
    pub ready : World
    pub old : c.SigSet
    pub masks : block_all_signals w ≡ (ok old, blocked)
    pub clones : try_clone_to_owned fd blocked ≡ (ok cloned, ready)
    pub trip : Trip c id_reply owner at_owner (register (record { fd = cloned })) answer ready w'

  registered :
      (owner fd : OwnedFd) (cloned : OwnedFd) (old : c.SigSet) (answer : Result ℕ ℕ)
      (w w₁ w₂ w₇ : World)
      → block_all_signals w ≡ (ok old, w₁)
      → try_clone_to_owned fd w₁ ≡ (ok cloned, w₂)
      → send_request c Register.serializable Register.replyable raw_message id_reply owner
          (record { fd = cloned })
          w₂
        ≡ (received answer, w₇)
      → Owner.register c owner fd w
        ≡ (map_ok (λ id. record { owner = owner; id = id }) (map_err os answer), restore old w₇)
  unfolding Owner.register masked received
  registered owner fd cloned old (ok id) w w₁ w₂ w₇ m d s = ground (arith, m, d, s)
  registered owner fd cloned old (err e) w w₁ w₂ w₇ m d s = ground (arith, m, d, s)

  -- A registration arrives at the owner process as the message `Register` with the client's clone of
  -- the descriptor, and with the descriptor to reply on; and what the owner answers there, an ID or
  -- an error number, is what the client's `register` returns: the `Lockable` with this ID and the
  -- owner's socket, or the error with this number. Every call on the way succeeds, and the sockets
  -- deliver.
  pub register_reaches_owner :
      (owner at_owner fd cloned : OwnedFd) (answer : Result ℕ ℕ) (w w' : World)
      → (k : Carries owner at_owner fd cloned answer w w')
      → IsCarried c k.trip
        × ((Owner.register c owner fd w).0
            ≡ map_ok (λ id. record { owner = owner; id = id }) (map_err os answer))
  unfolding Message.serialize Register.serialize
  register_reaches_owner owner at_owner fd cloned answer w w' k =
      let (arrived, got) =
        request_answered c Register.serialize Register.deserialize Register.replyable id_reply owner
          at_owner (record { fd = cloned }) (register (record { fd = cloned })) answer k.ready w'
          refl k.trip in
      (
        arrived,
        ap (λ p. p.0)
            (registered owner fd cloned k.old answer w k.blocked k.ready w' k.masks k.clones got),
      )
