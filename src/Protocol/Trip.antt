-- ===== src/Protocol/Trip.antt =====
-- One request of a client of src/owner.rs over the socket to its owner process, and the answer on the
-- descriptor that came with it: src/messages.rs.
use ulockmgr.Prelude.{ℕ, ◌≡◌, refl, List, [], ◌∷◌, arith, length}
use ulockmgr.IoError.{Result, IoError, ok}
use ulockmgr.Messages.Traits.{OwnedFd, Serializable, Replyable}
use ulockmgr.Messages.Message.{Message}
use ulockmgr.Messages.Message
use ulockmgr.Messages.RoundTrip.{message_roundtrip}
use ulockmgr.Messages.Raw.{RawMessage}
use ulockmgr.Client.Calls.{received}
use ulockmgr.Client.Owner.{Client, send_request}
use ulockmgr.Wire.Raw.{frame}
use ulockmgr.Wire.Request.{Codec, Decodes, send_request_iter_with_fds, receive_request, await_reply}
use ulockmgr.Wire.Delivery.{Delivers}
use ulockmgr.Wire.Exchange.{Fits, request_arrives, reply_arrives}

module _ (c : Client) where
  open c use {net, errnos, raw_message}
  open net use {World, socketpair, sendmsg}

  -- What a client relies on for one request: that its calls succeed, that what it sends is delivered
  -- to the owner process, and that what this answers is delivered to it. `w` and `w'` are the
  -- client's, before the request and after the answer; it makes the pair of `parent` and `child` for
  -- the answer. The owner receives the request from `reaching` to `reached`.
  pub record Trip {T : Type 0} (reply : Codec (Result T ℕ)) (owner at_owner : OwnedFd) (m : Message)
      (answer : Result T ℕ) (w w' : World) : Type 0 where
    pub parent : OwnedFd
    pub child : OwnedFd
    pub bytes : List ℕ
    pub reply_bytes : List ℕ
    pub paired : World
    pub sent : World
    pub reaching : World
    pub reached : World
    pub encodes : raw_message.encode (Message.serialize m).0 ≡ ok bytes
    pub decodes : Decodes raw_message
    pub fits : Fits net bytes (child ∷ (Message.serialize m).1)
    pub pairs : socketpair w ≡ (ok (parent, child), paired)
    pub sends :
        sendmsg owner
          (frame net bytes (child ∷ (Message.serialize m).1))
          (child ∷ (Message.serialize m).1)
          paired
        ≡ (ok (length (frame net bytes (child ∷ (Message.serialize m).1))), sent)
    pub delivers :
        Delivers net at_owner
          (frame net bytes (child ∷ (Message.serialize m).1))
          (child ∷ (Message.serialize m).1)
          reaching
          reached
    pub reply_encodes : reply.encode answer ≡ ok reply_bytes
    pub reply_decodes : Decodes reply
    pub reply_fits : Fits net reply_bytes []
    pub reply_delivers : Delivers net parent (frame net reply_bytes []) [] sent w'

  -- The owner process receives the message, with the descriptor to reply on.
  abbrev pub IsCarried :
      {T : Type 0} {reply : Codec (Result T ℕ)} {owner at_owner : OwnedFd} {m : Message}
      {answer : Result T ℕ} {w w' : World}
      → Trip reply owner at_owner m answer w w'
      → Type 0
  IsCarried {at_owner = at_owner} {m = m} t =
      receive_request net Message.serializable raw_message at_owner t.reaching
      ≡ (ok (m, t.child), t.reached)

  -- A message type whose payload is the `RawMessage` that stands for it as a `Message`.
  module _ {M : Type 0} (ser : M → RawMessage × List OwnedFd)
      (de : RawMessage → List OwnedFd → Result M IoError) (r : Replyable M)
      (reply : Codec (Result r.ReplyType ℕ)) where
    abbrev pub trait : Serializable M
    trait = record { Payload = RawMessage; serialize = ser; deserialize = de }

    requested :
        (owner : OwnedFd) (m : M) (parent : OwnedFd) (answer : Result r.ReplyType ℕ)
        (w w₂ w₅ : World)
        → send_request_iter_with_fds net trait raw_message owner m w ≡ (ok parent, w₂)
        → await_reply net errnos reply parent w₂ ≡ (received answer, w₅)
        → send_request c trait r raw_message reply owner m w ≡ (received answer, w₅)
    unfolding send_request
    requested owner m parent answer w w₂ w₅ sent got = ground (arith, sent, got)

    sent_as :
        (owner : OwnedFd) (m : M) (msg : Message) (w : World)
        → ser m ≡ Message.serialize msg
        → send_request_iter_with_fds net trait raw_message owner m w
          ≡ send_request_iter_with_fds net Message.serializable raw_message owner msg w
    unfolding send_request_iter_with_fds
    sent_as owner m msg w same = rw same refl

    -- The request arrives at the owner process as the message that it is, with the descriptor to
    -- reply on; and what the owner answers there is what `send_request` gives the client.
    pub request_answered :
        (owner at_owner : OwnedFd) (m : M) (msg : Message) (answer : Result r.ReplyType ℕ)
        (w w' : World)
        → ser m ≡ Message.serialize msg
        → (t : Trip reply owner at_owner msg answer w w')
        → IsCarried t × (send_request c trait r raw_message reply owner m w ≡ (received answer, w'))
    request_answered owner at_owner m msg answer w w' same t =
        let (sent, arrived) =
          request_arrives net Message.serializable raw_message owner at_owner t.parent t.child msg
            t.bytes w t.paired t.sent t.reaching t.reached message_roundtrip t.decodes t.encodes
            t.fits t.pairs t.sends t.delivers in
        let (_, answered) =
          reply_arrives net errnos reply t.parent answer [] t.reply_bytes t.sent w' t.reply_decodes
            t.reply_encodes t.reply_fits t.reply_delivers in
        (
          arrived,
          requested owner m t.parent answer w t.sent w' (rw (sent_as owner m msg w same) sent)
              answered,
        )
