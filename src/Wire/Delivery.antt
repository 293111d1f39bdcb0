-- ===== src/Wire/Delivery.antt =====
-- Receiving what was sent: `receive_raw_message` of src/messages.rs on a socket that delivers.
use mathlib.Core.List.{append-nil, append_assoc}
use ulockmgr.Prelude.{
  ℕ, ◌+◌, ◌≤◌, ◌<◌, ◌^◌, ◌≡◌, ap, ◌∙◌, Bool, true, false, List, [], ◌++◌, arith, length, take, drop,
  take-append, drop-append, length-append, length-take,
}
use ulockmgr.IoError.{ok}
use ulockmgr.Messages.Traits.{OwnedFd}
use ulockmgr.Wire.Bytes.{to_ne_bytes, from_ne_bytes, ne_bytes_roundtrip, length-to_ne_bytes}
use ulockmgr.Wire.Net.{Ancillary, Received, Net}
use ulockmgr.Wire.Raw.{
  collect, frame, usize_try_from, retry_empty, receive_exactly, finish, receive_raw_message,
}

-- A list in three parts, the first two of eight bytes.
header_part : (a b c : List ℕ) → length a ≡ 8 → length b ≡ 8 → take 16 (a ++ (b ++ c)) ≡ a ++ b
header_part a b c p q =
    rw (← append_assoc a b c) (take-append 16 (a ++ b) c (omega (arith, length-append a b)))

rest_part : (a b c : List ℕ) → length a ≡ 8 → length b ≡ 8 → drop 16 (a ++ (b ++ c)) ≡ c
rest_part a b c p q =
    rw (← append_assoc a b c) (drop-append 16 (a ++ b) c (omega (arith, length-append a b)))

take-all : (n : ℕ) (a : List ℕ) → length a ≡ n → take n a ≡ a
take-all n a p = rw (append-nil a) at (take-append n a [] p)

module _ (net : Net) where
  open net use {World, big, usize_max, recvmsg, sendmsg}

  -- The next message at a socket in a state, and the state in which it has been taken: a look gives
  -- its first bytes and leaves the state alone, and a read with room for all of it gives it whole.
  pub record Delivers (socket : OwnedFd) (bytes : List ℕ) (fds : List OwnedFd) (w w' : World)
      : Type 0 where
    pub looks :
        (len : ℕ)
        → len ≤ length bytes
        → (control : List Ancillary) × (recvmsg socket len 0 true w
            ≡ (ok (record { bytes = take len bytes; ancillary = control }), w))
    pub takes :
        (control : List Ancillary) × (collect control ≡ ok fds)
        × (recvmsg socket (length bytes) (length fds) false w
            ≡ (ok (record { bytes = bytes; ancillary = control }), w'))

  length-frame :
      (buffer : List ℕ) (fds : List OwnedFd) → length (frame net buffer fds) ≡ 16 + length buffer
  unfolding frame
  length-frame buffer fds = omega (
    arith,
    length-append (to_ne_bytes big (length buffer)) (to_ne_bytes big (length fds) ++ buffer),
    length-append (to_ne_bytes big (length fds)) buffer,
    length-to_ne_bytes big (length buffer),
    length-to_ne_bytes big (length fds),
  )

  -- The parts of a frame.
  size_part :
      (buffer : List ℕ) (fds : List OwnedFd)
      → take 8 (take 16 (frame net buffer fds)) ≡ to_ne_bytes big (length buffer)
  unfolding frame
  size_part buffer fds =
      let a = to_ne_bytes big (length buffer) in
      let b = to_ne_bytes big (length fds) in
      ap (take 8) (header_part a b buffer (length-to_ne_bytes big _) (length-to_ne_bytes big _))
      ∙ take-append 8 a b (length-to_ne_bytes big _)

  count_part :
      (buffer : List ℕ) (fds : List OwnedFd)
      → take 8 (drop 8 (take 16 (frame net buffer fds))) ≡ to_ne_bytes big (length fds)
  unfolding frame
  count_part buffer fds =
      let a = to_ne_bytes big (length buffer) in
      let b = to_ne_bytes big (length fds) in
      ap (λ x. take 8 (drop 8 x))
        (header_part a b buffer (length-to_ne_bytes big _) (length-to_ne_bytes big _))
      ∙ ap (take 8) (drop-append 8 a b (length-to_ne_bytes big _))
      ∙ take-all 8 b (length-to_ne_bytes big _)

  payload_part : (buffer : List ℕ) (fds : List OwnedFd) → drop 16 (frame net buffer fds) ≡ buffer
  unfolding frame
  payload_part buffer fds =
      rest_part (to_ne_bytes big (length buffer)) (to_ne_bytes big (length fds)) buffer
        (length-to_ne_bytes big _) (length-to_ne_bytes big _)

  exactly :
      (socket : OwnedFd) (len room : ℕ) (peek : Bool) (m : Received) (w w' : World)
      → 0 < len
      → length m.bytes ≡ len
      → recvmsg socket len room peek w ≡ (ok m, w')
      → receive_exactly net socket len room peek w ≡ (ok m, w')
  unfolding receive_exactly retry_empty
  exactly socket len room peek m w w' p l e = ground (arith, e)

  -- A message that the socket delivers is received as the payload and the descriptors that it was
  -- sent with, if their numbers fit a usize and 64 bits.
  pub receive_delivered :
      (socket : OwnedFd) (buffer : List ℕ) (fds : List OwnedFd) (w w' : World)
      → length buffer < 2 ^ 64
      → length buffer ≤ usize_max
      → length fds < 2 ^ 64
      → length fds ≤ usize_max
      → Delivers socket (frame net buffer fds) fds w w'
      → receive_raw_message net socket w ≡ (ok (buffer, fds), w')
  unfolding receive_raw_message usize_try_from finish
  receive_delivered socket buffer fds w w' b u c v d =
      let whole = length-frame buffer fds in
      let (control, header) = d.looks 16 (omega (arith, whole)) in
      let (rights, collected, message) = d.takes in
      let f = frame net buffer fds in
      let first =
        exactly socket 16 0 true (record { bytes = take 16 f; ancillary = control }) w w
          (omega arith) (length-take 16 f (omega (arith, whole))) header in
      let second =
        exactly socket (16 + length buffer) (length fds) false
          (record { bytes = f; ancillary = rights }) w w' (omega arith) whole
          (rw whole at message) in
      let size =
        ap (from_ne_bytes big) (size_part buffer fds) ∙ ne_bytes_roundtrip big (length buffer) b in
      let count =
        ap (from_ne_bytes big) (count_part buffer fds) ∙ ne_bytes_roundtrip big (length fds) c in
      ground (arith, first, second, size, count, collected, payload_part buffer fds)
