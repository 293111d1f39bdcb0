-- ===== src/Protocol/ShortHeader.antt =====
-- The command loop of src/owner.rs on a header that is cut short, over `receive_request` of
-- src/messages.rs.
use ulockmgr.Prelude.{ℕ, zero, suc, ◌≡◌, ◌≢◌, refl, true, some, List, [], ◌∷◌, arith, length}
use ulockmgr.IoError.{custom, unexpected_eof, ok, err, Errnos, kind}
use ulockmgr.Types.{Libc}
use ulockmgr.Kernel.{Kernel}
use ulockmgr.Messages.Traits.{OwnedFd}
use ulockmgr.Messages.Raw.{RawMessage}
use ulockmgr.Messages.Message
use ulockmgr.Daemon.State.{DaemonOwnerInner}
use ulockmgr.Daemon.Receive.{Action, refresh, Incoming, verdict, waiting, receive_loop}
use ulockmgr.Wire.Net.{Received, Net}
use ulockmgr.Wire.Raw.{retry_empty, receive_exactly, receive_raw_message}
use ulockmgr.Wire.Request.{Codec, receive_request}

-- As many refreshes of the time-to-live.
abbrev pub refreshed : ℕ → List Action
refreshed zero = []
refreshed (suc count) = refresh ∷ refreshed count

module _ (net : Net) (codec : Codec RawMessage) where
  open net use {World, recvmsg}

  -- What `receive_request` gives the loop in as many rounds, and what is left on the socket. The
  -- rest of a round is what the operating system would answer to a handler.
  abbrev pub receiving : OwnedFd → Incoming → ℕ → World → List Incoming × World
  receiving socket i zero w = ([], w)
  receiving socket i (suc count) w =
      let (r, w') = receive_request net Message.serializable codec socket w in
      let (later, w'') = receiving socket i count w' in (record i { request = r } ∷ later, w'')

  -- MSG_PEEK leaves what it reads where it is.
  abbrev pub PeekLeaves : Type 0
  PeekLeaves =
      (socket : OwnedFd) (len room : ℕ) (w : World) → (recvmsg socket len room true w).1 ≡ w

  short_request :
      (socket : OwnedFd) (m : Received) (w : World)
      → PeekLeaves
      → (recvmsg socket 16 0 true w).0 ≡ ok m
      → length m.bytes ≢ 0
      → length m.bytes ≢ 16
      → receive_request net Message.serializable codec socket w ≡ (err (custom unexpected_eof), w)
  unfolding receive_request receive_raw_message receive_exactly retry_empty
  short_request socket m w peek e some_bytes short =
      let left = peek socket 16 0 w in ground (arith, e, left)

  module _ (k : Kernel) (c : Libc) (n : Errnos) where
    short_rounds :
        (socket : OwnedFd) (i : Incoming) (count : ℕ) (d : DaemonOwnerInner) (v : k.World)
        (w : World)
        → receive_request net Message.serializable codec socket w ≡ (err (custom unexpected_eof), w)
        → ((receiving socket i count w).1 ≡ w)
          × (receive_loop k c n (receiving socket i count w).0 d v
              ≡ some (waiting, refreshed count, d, v))
    unfolding receive_loop verdict kind
    short_rounds socket i zero d v w e = (refl, refl)
    short_rounds socket i (suc count) d v w e =
        let (left, loops) = short_rounds socket i count d v w e in (rw e left, rw (e, loops) refl)

    -- While a header that is cut short is all that is on the socket, the loop of the owner makes no
    -- progress: it runs for any number of rounds without an end, each of them refreshes the
    -- time-to-live and changes no state, and the same bytes are on the socket after them. The peek
    -- at the header gives some bytes and fewer or more than sixteen, and a read with MSG_PEEK
    -- leaves what it reads.
    pub short_header_repeats :
        (socket : OwnedFd) (i : Incoming) (m : Received) (count : ℕ) (d : DaemonOwnerInner)
        (v : k.World) (w : World)
        → PeekLeaves
        → (recvmsg socket 16 0 true w).0 ≡ ok m
        → length m.bytes ≢ 0
        → length m.bytes ≢ 16
        → ((receiving socket i count w).1 ≡ w)
          × (receive_loop k c n (receiving socket i count w).0 d v
              ≡ some (waiting, refreshed count, d, v))
    short_header_repeats socket i m count d v w peek e some_bytes short =
        short_rounds socket i count d v w (short_request socket m w peek e some_bytes short)
