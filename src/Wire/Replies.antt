-- ===== src/Wire/Replies.antt =====
-- A reply from the server's `Reply::reply_with_fds` to the client's `ReplyIterator::next`: src/messages.rs.
use ulockmgr.Prelude.{ℕ, ◌≡◌, some, List, arith, length}
use ulockmgr.IoError.{Result, ok, err, map_ok, Errnos}
use ulockmgr.Messages.Traits.{OwnedFd, Reply}
use ulockmgr.Client.Calls.{received}
use ulockmgr.Wire.Net.{Net}
use ulockmgr.Wire.Raw.{frame, send_raw_message}
use ulockmgr.Wire.Request.{Codec, Decodes, next, raw_reply, reply_with_fds, reply, await_reply}
use ulockmgr.Wire.Delivery.{Delivers}
use ulockmgr.Wire.Exchange.{Fits, reply_arrives}

module _ (net : Net) {T : Type 0} (n : Errnos) (c : Codec (Result T ℕ)) where
  open net use {World, sendmsg}

  reply_sends :
      (r : Reply T) (message : Result T ℕ) (fds : List OwnedFd) (bytes : List ℕ) (w w₁ : World)
      → c.encode message ≡ ok bytes
      → sendmsg r.channel (frame net bytes fds) fds w ≡ (ok (length (frame net bytes fds)), w₁)
      → reply_with_fds net n c r message fds w ≡ w₁
  unfolding reply_with_fds raw_reply send_raw_message
  reply_sends r message fds bytes w w₁ e s = ground (arith, e, s)

  -- What the server replies, with descriptors, is what the client's iterator gives: the payload with
  -- the descriptors, or the error number as an operating system error; a caller that wants one
  -- reply gets the payload or that error. If bincode decodes what it encodes, the reply is
  -- encoded and its numbers fit, the call of `sendmsg` succeeds, and the socket delivers.
  pub reply_exchanged :
      (r : Reply T) (oneshot : OwnedFd) (message : Result T ℕ) (fds : List OwnedFd) (bytes : List ℕ)
      (w w₁ w₂ w₃ : World)
      → Decodes c
      → c.encode message ≡ ok bytes
      → Fits net bytes fds
      → sendmsg r.channel (frame net bytes fds) fds w ≡ (ok (length (frame net bytes fds)), w₁)
      → Delivers net oneshot (frame net bytes fds) fds w₂ w₃
      → (reply_with_fds net n c r message fds w ≡ w₁)
        × (next net n c oneshot w₂ ≡ (some (received (map_ok (λ item. (item, fds)) message)), w₃))
        × (await_reply net n c oneshot w₂ ≡ (received message, w₃))
  reply_exchanged r oneshot message fds bytes w w₁ w₂ w₃ decodes e fits s d =
      let (came, answered) =
        reply_arrives net n c oneshot message fds bytes w₂ w₃ decodes e fits d in
      (reply_sends r message fds bytes w w₁ e s, came, answered)

  -- A reply that bincode cannot encode is not sent, with descriptors or without.
  unencoded_unsent :
      (r : Reply T) (message : Result T ℕ) (fds : List OwnedFd) (w : World)
      → c.encode message ≡ err tt
      → (reply_with_fds net n c r message fds w ≡ w) × (reply net n c r message w ≡ w)
  unfolding reply reply_with_fds
  unencoded_unsent r message fds w e = (ground (arith, e), ground (arith, e))
