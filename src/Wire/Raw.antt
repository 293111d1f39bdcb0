-- ===== src/Wire/Raw.antt =====
-- `receive_raw_message` and `send_raw_message` of src/messages.rs.
use ulockmgr.Prelude.{
  ℕ, ◌+◌, Bool, true, false, List, [], ◌∷◌, ◌++◌, length, take, drop, leb, ◌==◌, if◌then◌else◌,
}
use ulockmgr.IoError.{
  IoError, custom, broken_pipe, unexpected_eof, invalid_input, invalid_data, write_zero, Result, ok,
  err, map_ok,
}
use ulockmgr.Messages.Traits.{OwnedFd}
use ulockmgr.Wire.Bytes.{to_ne_bytes, from_ne_bytes}
use ulockmgr.Wire.Net.{Ancillary, scm_rights, unexpected, Received, Net, Io, lift, call, ◌>>=◌}

-- The descriptors of the control messages, in order.
unfoldable pub collect : List Ancillary → Result (List OwnedFd) IoError
collect [] = ok []
collect (scm_rights fds ∷ rest) = map_ok (◌++◌ fds) (collect rest)
collect (unexpected ∷ rest) = err (custom invalid_data)

module _ (net : Net) where
  open net use {World, big, usize_max, recvmsg, sendmsg}

  -- The message as it goes out: both lengths, then the payload.
  unfoldable pub frame : List ℕ → List OwnedFd → List ℕ
  frame buffer fds = to_ne_bytes big (length buffer) ++ (to_ne_bytes big (length fds) ++ buffer)

  unfoldable pub usize_try_from : ℕ → Result ℕ IoError
  usize_try_from n = if leb n usize_max then ok n else err (custom invalid_input)

  -- An empty read is tried once more, and then means that the connection has ended.
  unfoldable pub retry_empty : OwnedFd → (len room : ℕ) → (peek : Bool) → Received → Io net Received
  retry_empty socket len room peek r =
      if length r.bytes == 0
      then (do
        again ← call (recvmsg socket len room peek)
        lift (if length again.bytes == 0 then err (custom broken_pipe) else ok again))
      else lift (ok r)

  -- A read with its check for the end, and its check that it is whole.
  unfoldable pub receive_exactly : OwnedFd → (len room : ℕ) → (peek : Bool) → Io net Received
  receive_exactly socket len room peek = do
    first ← call (recvmsg socket len room peek)
    message ← retry_empty socket len room peek first
    lift (if length message.bytes == len then ok message else err (custom unexpected_eof))

  -- The end: the payload and the descriptors, if there are as many as were announced.
  unfoldable pub finish : ℕ → Received → Result (List ℕ × List OwnedFd) IoError
  finish count message = elim (collect message.ancillary) [
    | err e ↦ err e
    | ok fds ↦
        if length fds == count then ok (drop 16 message.bytes, fds) else err (custom unexpected_eof)
  ]

  -- The header is peeked at, and read again with the payload.
  unfoldable pub receive_raw_message : OwnedFd → Io net (List ℕ × List OwnedFd)
  receive_raw_message socket = do
    header ← receive_exactly socket 16 0 true
    size ← lift (usize_try_from (from_ne_bytes big (take 8 header.bytes)))
    count ← lift (usize_try_from (from_ne_bytes big (take 8 (drop 8 header.bytes))))
    message ← receive_exactly socket (16 + size) count false
    lift (finish count message)

  unfoldable pub send_raw_message : OwnedFd → List ℕ → List OwnedFd → Io net (Unit {0})
  send_raw_message socket buffer fds = do
    sent ← call (sendmsg socket (frame buffer fds) fds)
    lift (if sent == length (frame buffer fds) then ok tt else err (custom write_zero))
