-- ===== src/Wire/Exchange.antt =====
-- A request and its reply from one end of a socket to the other: src/messages.rs.
use ulockmgr.Prelude.{ℕ, ◌≤◌, ◌<◌, ◌^◌, ◌≡◌, refl, ap, ◌∙◌, some, List, ◌∷◌, arith, length}
use ulockmgr.IoError.{Result, ok, err, map_ok, Errnos}
use ulockmgr.Messages.Traits.{OwnedFd, Serializable, RoundTrips}
use ulockmgr.Client.Calls.{received}
use ulockmgr.Wire.Net.{Net}
use ulockmgr.Wire.Raw.{frame, receive_raw_message, send_raw_message}
use ulockmgr.Wire.Request.{
  Codec, Decodes, parse_request, receive_request, send_request_iter_with_fds, next_item, next,
  await_reply, first_item,
}
use ulockmgr.Wire.Delivery.{Delivers, receive_delivered}

module _ (net : Net) where
  open net use {World, usize_max, recvmsg, sendmsg, socketpair}

  -- A payload and its descriptors can be announced: their numbers fit a usize and 64 bits.
  pub record Fits (buffer : List ℕ) (fds : List OwnedFd) : Type 0 where
    pub bytes_64 : length buffer < 2 ^ 64
    pub bytes_usize : length buffer ≤ usize_max
    pub fds_64 : length fds < 2 ^ 64
    pub fds_usize : length fds ≤ usize_max

  module _ {M : Type 0} (s : Serializable M) (c : Codec s.Payload) where
    parse-sent :
        (m : M) (bytes : List ℕ) (child : OwnedFd)
        → RoundTrips s
        → Decodes c
        → c.encode (s.serialize m).0 ≡ ok bytes
        → parse_request net s c (bytes, child ∷ (s.serialize m).1) ≡ ok (m, child)
    unfolding parse_request
    parse-sent m bytes child laws decodes e =
        ground (arith, decodes (s.serialize m).0 bytes e, laws m)

    receives :
        (socket : OwnedFd) (raw : List ℕ × List OwnedFd) (r : M × OwnedFd) (w w' : World)
        → receive_raw_message net socket w ≡ (ok raw, w')
        → parse_request net s c raw ≡ ok r
        → receive_request net s c socket w ≡ (ok r, w')
    unfolding receive_request
    receives socket raw r w w' e p = ground (arith, e, p)

    -- A request that is sent goes out with a new descriptor to reply on in front of its own, and the
    -- sender keeps the other end, if the calls succeed; where the socket delivers what was sent, the
    -- numbers fit, and bincode decodes what it encodes, the receiver gets the same
    -- request and that descriptor.
    pub request_arrives :
        (from to parent child : OwnedFd) (m : M) (bytes : List ℕ) (w w₁ w₂ w₃ w₄ : World)
        → RoundTrips s
        → Decodes c
        → c.encode (s.serialize m).0 ≡ ok bytes
        → Fits bytes (child ∷ (s.serialize m).1)
        → socketpair w ≡ (ok (parent, child), w₁)
        → sendmsg from (frame net bytes (child ∷ (s.serialize m).1)) (child ∷ (s.serialize m).1) w₁
          ≡ (ok (length (frame net bytes (child ∷ (s.serialize m).1))), w₂)
        → Delivers net to
            (frame net bytes (child ∷ (s.serialize m).1))
            (child ∷ (s.serialize m).1)
            w₃
            w₄
        → (send_request_iter_with_fds net s c from m w ≡ (ok parent, w₂))
          × (receive_request net s c to w₃ ≡ (ok (m, child), w₄))
    unfolding send_request_iter_with_fds send_raw_message
    request_arrives from to parent child m bytes w w₁ w₂ w₃ w₄ laws decodes e fits pair sent d = (
      ground (arith, e, pair, sent),
      receives to (bytes, child ∷ (s.serialize m).1) (m, child) w₃ w₄
          (receive_delivered net to bytes (child ∷ (s.serialize m).1) w₃ w₄ fits.bytes_64
            fits.bytes_usize fits.fds_64 fits.fds_usize d)
          (parse-sent m bytes child laws decodes e),
    )

  module _ {T : Type 0} (n : Errnos) (c : Codec (Result T ℕ)) where
    next_of_raw :
        (oneshot : OwnedFd) (raw : List ℕ × List OwnedFd) (w w' : World)
        → receive_raw_message net oneshot w ≡ (ok raw, w')
        → next net n c oneshot w ≡ (next_item net n c (ok raw), w')
    unfolding next
    next_of_raw oneshot raw w w' e = rw e

    item_of_decoded :
        (message : Result T ℕ) (bytes : List ℕ) (fds : List OwnedFd)
        → c.decode bytes ≡ ok message
        → next_item net n c (ok (bytes, fds))
          ≡ some (received (map_ok (λ item. (item, fds)) message))
    unfolding next_item
    item_of_decoded message bytes fds e = rw (e, next_item)

    without_fds :
        (message : Result T ℕ) (fds : List OwnedFd)
        → map_ok
            (map_ok (λ (reply : T × List OwnedFd). reply.0))
            (received (map_ok (λ item. (item, fds)) message))
          ≡ received message
    unfolding received
    without_fds (ok item) fds = refl
    without_fds (err e) fds = refl

    -- A reply that the socket delivers, whose numbers fit and which bincode decodes, is the next item: its payload with its descriptors, or the
    -- error number of the server as an operating system error; a caller that wants one reply gets
    -- its payload or that error.
    pub reply_arrives :
        (oneshot : OwnedFd) (message : Result T ℕ) (fds : List OwnedFd) (bytes : List ℕ)
        (w w' : World)
        → Decodes c
        → c.encode message ≡ ok bytes
        → Fits bytes fds
        → Delivers net oneshot (frame net bytes fds) fds w w'
        → (next net n c oneshot w ≡ (some (received (map_ok (λ item. (item, fds)) message)), w'))
          × (await_reply net n c oneshot w ≡ (received message, w'))
    unfolding await_reply first_item
    reply_arrives oneshot message fds bytes w w' decodes e fits d =
        let got =
          receive_delivered net oneshot bytes fds w w' fits.bytes_64 fits.bytes_usize fits.fds_64
            fits.fds_usize d in
        let item = item_of_decoded message bytes fds (decodes message bytes e) in
        let came : next net n c oneshot w
            ≡ (some (received (map_ok (λ item. (item, fds)) message)), w') =
          next_of_raw oneshot (bytes, fds) w w' got ∙ ap (λ x. (x, w')) item in
        (came, rw came (ap (λ x. (x, w')) (without_fds message fds)))
