-- ===== src/Tests/Wire.antt =====
-- A request with a descriptor, and its reply, over a socket that is a queue of bytes.
use ulockmgr.Prelude.{
  ℕ, ◌≡◌, refl, Bool, true, false, none, some, List, [], ◌∷◌, ◌++◌, length, take, drop, arith, ◌==◌,
  if◌then◌else◌,
}
use ulockmgr.IoError.{custom, unexpected_eof, Result, ok, err, map_ok}
use ulockmgr.Messages.Traits.{OwnedFd}
use ulockmgr.Messages.Raw.{RawMessage}
use ulockmgr.Messages.Register.{Register}
use ulockmgr.Messages.Register
use ulockmgr.Client.Calls.{received}
use ulockmgr.Wire.Bytes.{to_ne_bytes, le_bytes}
use ulockmgr.Wire.Net.{Received, scm_rights, Net}
use ulockmgr.Wire.Raw.{frame, collect}
use ulockmgr.Wire.Request.{
  Codec, Decodes, send_request_iter_with_fds, receive_request, next, reply_with_fds, await_reply,
}
use ulockmgr.Wire.Replies.{reply_exchanged}
use ulockmgr.Wire.Delivery.{Delivers}
use ulockmgr.Wire.Exchange.{Fits, request_arrives}
use ulockmgr.Kernel.{function}
use ulockmgr.Daemon.State.{new_inner}
use ulockmgr.Daemon.Receive.{Incoming, waiting, receive_loop}
use ulockmgr.Protocol.ShortHeader.{receiving, refreshed, short_header_repeats}
use ulockmgr.Tests.Platform.{linux, errnos, toy_kernel, nobody}

-- What is on its way, with the descriptors.
pub record Queue : Type 0 where
  pub bytes : List ℕ
  pub fds : List OwnedFd

abbrev pub recvmsg : OwnedFd → (len room : ℕ) → (peek : Bool) → Queue → Result Received ℕ × Queue
recvmsg socket len room true q = (ok (record { bytes = take len q.bytes; ancillary = [] }), q)
recvmsg socket len room false q = (
  ok (record { bytes = take len q.bytes; ancillary = scm_rights (take room q.fds) ∷ [] }),
  record { bytes = drop len q.bytes; fds = drop room q.fds },
)

abbrev pub net : Net
net = record {
  World = Queue;
  big = false;
  usize_max = 4294967295;
  recvmsg = recvmsg;
  sendmsg = λ socket bytes fds q.
      (ok (length bytes), record { bytes = q.bytes ++ bytes; fds = q.fds ++ fds });
  socketpair = λ q. (ok (20, 21), q);
}

abbrev pub empty : Queue
empty = record { bytes = []; fds = [] }

-- A codec for registrations; it cannot encode the other messages.
abbrev pub encode : RawMessage → Result (List ℕ) (Unit {0})
encode RawMessage.register = ok (3 ∷ [])
encode _ = err tt

abbrev pub codec : Codec RawMessage
codec = record { encode = encode; decode = λ _. ok RawMessage.register }

pub codec-Decodes : Decodes codec
codec-Decodes RawMessage.register bytes e = refl
codec-Decodes p bytes e = absurd (ground arith)

abbrev a_register : Register
a_register = record { fd = 7 }

abbrev request_on_its_way : Queue
request_on_its_way = record { bytes = frame net (3 ∷ []) (21 ∷ 7 ∷ []); fds = 21 ∷ 7 ∷ [] }

request_delivered :
    Delivers net 2 (frame net (3 ∷ []) (21 ∷ 7 ∷ [])) (21 ∷ 7 ∷ []) request_on_its_way empty
unfolding frame to_ne_bytes le_bytes collect
request_delivered = record {
  looks = λ len le. ([], refl);
  takes = (scm_rights (21 ∷ 7 ∷ []) ∷ [], refl, refl);
}

request-Fits : Fits net (3 ∷ []) (21 ∷ 7 ∷ [])
request-Fits = record {
  bytes_64 = omega arith;
  bytes_usize = omega arith;
  fds_64 = omega arith;
  fds_usize = omega arith;
}

request_arrives_example :
    (send_request_iter_with_fds net Register.serializable codec 1 a_register empty
      ≡ (ok 20, request_on_its_way))
    × (receive_request net Register.serializable codec 2 request_on_its_way
        ≡ (ok (a_register, 21), empty))
request_arrives_example =
    request_arrives net Register.serializable codec 1 2 20 21 a_register (3 ∷ []) empty empty
      request_on_its_way request_on_its_way empty
      (unfold Register.serialize Register.deserialize in λ m. refl) codec-Decodes
      (unfold Register.serialize in refl) (unfold Register.serialize in request-Fits) refl
      (unfold Register.serialize in refl) (unfold Register.serialize in request_delivered)

-- Replies with an ID or an error number.
abbrev pub encode_reply : Result ℕ ℕ → Result (List ℕ) (Unit {0})
encode_reply (ok id) = ok (0 ∷ id ∷ [])
encode_reply (err e) = ok (1 ∷ e ∷ [])

abbrev pub decode_reply : List ℕ → Result (Result ℕ ℕ) (Unit {0})
decode_reply (tag ∷ x ∷ []) = ok (if tag == 0 then ok x else err x)
decode_reply _ = err tt

abbrev pub reply_codec : Codec (Result ℕ ℕ)
reply_codec = record { encode = encode_reply; decode = decode_reply }

pub reply_codec-Decodes : Decodes reply_codec
reply_codec-Decodes (ok id) bytes e = ground arith
reply_codec-Decodes (err x) bytes e = ground arith

abbrev reply_on_its_way : Queue
reply_on_its_way = record { bytes = frame net (0 ∷ 4 ∷ []) []; fds = [] }

reply_delivered : Delivers net 20 (frame net (0 ∷ 4 ∷ []) []) [] reply_on_its_way empty
unfolding frame to_ne_bytes le_bytes collect
reply_delivered = record { looks = λ len le. ([], refl); takes = (scm_rights [] ∷ [], refl, refl) }

reply-Fits : Fits net (0 ∷ 4 ∷ []) []
reply-Fits = record {
  bytes_64 = omega arith;
  bytes_usize = omega arith;
  fds_64 = omega arith;
  fds_usize = omega arith;
}

reply_exchanged_example :
    (reply_with_fds net errnos reply_codec (record { channel = 21 }) (ok 4) [] empty
      ≡ reply_on_its_way)
    × (next net errnos reply_codec 20 reply_on_its_way
        ≡ (some (received (map_ok (λ item. (item, [])) (ok 4))), empty))
    × (await_reply net errnos reply_codec 20 reply_on_its_way ≡ (received (ok 4), empty))
reply_exchanged_example =
    reply_exchanged net errnos reply_codec (record { channel = 21 }) 20 (ok 4) [] (0 ∷ 4 ∷ []) empty
      reply_on_its_way reply_on_its_way empty reply_codec-Decodes refl reply-Fits refl
      reply_delivered

-- Three bytes of a header.
abbrev short : Queue
short = record { bytes = 1 ∷ 0 ∷ 0 ∷ []; fds = [] }

abbrev waiting_round : Incoming
waiting_round = record {
  request = err (custom unexpected_eof);
  ret = 0;
  errno = 0;
  handler = function;
  thread = none;
}

short_header_repeats_example :
    ((receiving net codec 2 waiting_round 3 short).1 ≡ short)
    × (receive_loop toy_kernel linux errnos
          (receiving net codec 2 waiting_round 3 short).0
          new_inner
          nobody
        ≡ some (waiting, refreshed 3, new_inner, nobody))
short_header_repeats_example =
    short_header_repeats net codec toy_kernel linux errnos 2 waiting_round
      (record { bytes = 1 ∷ 0 ∷ 0 ∷ []; ancillary = [] }) 3 new_inner nobody short
      (λ socket len room w. refl) refl (λ e. omega (arith, e)) (λ e. omega (arith, e))
