-- ===== src/Wire/Request.antt =====
-- Requests and replies of src/messages.rs: `receive_request`, `send_request_iter_with_fds` and
-- what is built on it, `ReplyIterator::next`, and the methods of `Reply`.
-- bincode is an interface; dropping a descriptor is left out.
use ulockmgr.Prelude.{ℕ, ◌≡◌, Option, none, some, List, [], ◌∷◌}
use ulockmgr.IoError.{
  IoError, custom, broken_pipe, invalid_input, invalid_data, other, Result, ok, err, map_ok,
  map_err, Errnos, kind,
}
use ulockmgr.Messages.Traits.{OwnedFd, Serializable, Reply}
use ulockmgr.Client.Calls.{FetchedReplyResult, received}
use ulockmgr.Wire.Net.{Net, Io, lift, call, ◌>>=◌}
use ulockmgr.Wire.Raw.{receive_raw_message, send_raw_message}

-- `bincode::serialize` and `bincode::deserialize` at a type.
pub record Codec (P : Type 0) : Type 0 where
  pub encode : P → Result (List ℕ) (Unit {0})
  pub decode : List ℕ → Result P (Unit {0})

-- What is relied on: what is encoded is decoded.
abbrev pub Decodes : {P : Type 0} → Codec P → Type 0
Decodes {P} c = (p : P) (bytes : List ℕ) → c.encode p ≡ ok bytes → c.decode bytes ≡ ok p

module _ (net : Net) where
  open net use {World, socketpair}

  module _ {M : Type 0} (s : Serializable M) (c : Codec s.Payload) where
    -- The first descriptor is the one to reply on; the others belong to the message.
    unfoldable pub parse_request : List ℕ × List OwnedFd → Result (M × OwnedFd) IoError
    parse_request (buffer, []) = err (custom invalid_input)
    parse_request (buffer, reply_fd ∷ fds) = elim (c.decode buffer) [
      | err _ ↦ err (custom invalid_data)
      | ok payload ↦ map_ok (λ m. (m, reply_fd)) (s.deserialize payload fds)
    ]

    unfoldable pub receive_request : OwnedFd → Io net (M × OwnedFd)
    receive_request socket = do raw ← receive_raw_message net socket; lift (parse_request raw)

    -- The result is the descriptor that the replies come on.
    unfoldable pub send_request_iter_with_fds : OwnedFd → M → Io net OwnedFd
    send_request_iter_with_fds socket request = do
      payload_bytes ← lift (map_err (λ _. custom other) (c.encode (s.serialize request).0))
      pair ← call socketpair
      sent ← send_raw_message net socket payload_bytes (pair.1 ∷ (s.serialize request).1)
      lift (ok pair.0)

  module _ {T : Type 0} (n : Errnos) (c : Codec (Result T ℕ)) where
    -- What `next` makes of what it receives: the end, an error, or a reply with its descriptors.
    unfoldable pub next_item :
        Result (List ℕ × List OwnedFd) IoError → Option (FetchedReplyResult (T × List OwnedFd))
    next_item (err e) = elim (kind n e) [ broken_pipe ↦ none | _ ↦ some (err e) ]
    next_item (ok (raw, fds)) = elim (c.decode raw) [
      | ok r ↦ some (received (map_ok (λ item. (item, fds)) r))
      | err _ ↦ some (err (custom invalid_data))
    ]

    -- `ReplyIterator::next`
    unfoldable pub next : OwnedFd → World → Option (FetchedReplyResult (T × List OwnedFd)) × World
    next oneshot w = let (r, w') = receive_raw_message net oneshot w in (next_item r, w')

    -- `RawReply::reply`: a failure to send is dropped, with a line in the log.
    unfoldable pub raw_reply : Reply T → List ℕ → List OwnedFd → World → World
    raw_reply r message fds w = (send_raw_message net r.channel message fds w).1

    -- `Reply::reply_with_fds`: what cannot be encoded is not sent.
    unfoldable pub reply_with_fds : Reply T → Result T ℕ → List OwnedFd → World → World
    reply_with_fds r message fds w = elim (c.encode message) [
      | err _ ↦ w
      | ok data_bytes ↦ raw_reply r data_bytes fds w
    ]

    -- `Reply::reply`
    unfoldable pub reply : Reply T → Result T ℕ → World → World
    reply r message w = reply_with_fds r message [] w

    -- What `send_request` and `send_request_with_fds` make of the first item.
    unfoldable pub first_item :
        Option (FetchedReplyResult (T × List OwnedFd)) → FetchedReplyResult (T × List OwnedFd)
    first_item none = err (custom broken_pipe)
    first_item (some r) = r

    -- `send_request`, for the descriptor that `send_request_iter` gave: the data of one reply.
    unfoldable pub await_reply : OwnedFd → World → FetchedReplyResult T × World
    await_reply oneshot w =
        let (item, w') = next oneshot w in
        (map_ok (map_ok (λ reply. reply.0)) (first_item item), w')
