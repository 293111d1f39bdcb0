-- ===== src/Tests/Registration.antt =====
-- A client that registers descriptor 5 with an owner that answers with ID 4.
use ulockmgr.Prelude.{ℕ, ◌+◌, ◌≡◌, refl, Bool, List, [], ◌∷◌, arith, ◌==◌, if◌then◌else◌}
use ulockmgr.IoError.{os, Result, ok, err, map_ok, map_err}
use ulockmgr.Messages.Traits.{OwnedFd}
use ulockmgr.Messages.Message.{Message, register}
use ulockmgr.Messages.Message
use ulockmgr.Messages.Register
use ulockmgr.Client.Owner.{Client, RawLockable}
use ulockmgr.Client.Owner
use ulockmgr.Wire.Bytes.{to_ne_bytes, le_bytes}
use ulockmgr.Wire.Net.{Received, scm_rights, Net}
use ulockmgr.Wire.Raw.{frame, collect}
use ulockmgr.Wire.Request.{Codec, receive_request}
use ulockmgr.Protocol.Registration.{Carries, register_reaches_owner}
use ulockmgr.Tests.Platform.{errnos}
use ulockmgr.Tests.Wire.{
  Queue, recvmsg, empty, net, codec, codec-Decodes, reply_codec, reply_codec-Decodes,
}

-- The frame of the reply `Ok(4)`, which stays at the client's end of the pair.
abbrev pub reply_frame : List ℕ
reply_frame = 2 ∷ 0 ∷ 0 ∷ 0 ∷ 0 ∷ 0 ∷ 0 ∷ 0 ∷ 0 ∷ 0 ∷ 0 ∷ 0 ∷ 0 ∷ 0 ∷ 0 ∷ 0 ∷ 0 ∷ 4 ∷ []

abbrev pub answered : Queue
answered = record { bytes = reply_frame; fds = [] }

abbrev pub recv_at : OwnedFd → (len room : ℕ) → (peek : Bool) → Queue → Result Received ℕ × Queue
recv_at socket len room peek q =
    if socket == 20
    then ((recvmsg socket len room peek answered).0, q)
    else recvmsg socket len room peek q

abbrev pub answering : Net
answering = record net { recvmsg = recv_at }

abbrev pub no_codec : {P : Type 0} → Codec P
no_codec = record { encode = λ _. err tt; decode = λ _. err tt }

abbrev pub client : Client
client = record {
  net = answering;
  SigSet = Unit {0};
  block_all_signals = λ q. (ok tt, q);
  restore = λ _ q. q;
  try_clone_to_owned = λ fd q. (ok (fd + 2), q);
  errnos = errnos;
  raw_message = codec;
  duration = no_codec;
  unit_reply = no_codec;
  id_reply = reply_codec;
  lock_reply = no_codec;
}

abbrev on_its_way : Queue
on_its_way = record { bytes = frame answering (3 ∷ []) (21 ∷ 7 ∷ []); fds = 21 ∷ 7 ∷ [] }

carried : Carries client 1 2 5 7 (ok 4) empty on_its_way
unfolding frame to_ne_bytes le_bytes collect Message.serialize Register.serialize
carried = record {
  blocked = empty;
  ready = empty;
  old = tt;
  masks = refl;
  clones = refl;
  trip = record {
    parent = 20;
    child = 21;
    bytes = 3 ∷ [];
    reply_bytes = 0 ∷ 4 ∷ [];
    paired = empty;
    sent = on_its_way;
    reaching = on_its_way;
    reached = empty;
    encodes = refl;
    decodes = codec-Decodes;
    fits = record {
      bytes_64 = omega arith;
      bytes_usize = omega arith;
      fds_64 = omega arith;
      fds_usize = omega arith;
    };
    pairs = refl;
    sends = refl;
    delivers = record {
      looks = λ len le. ([], refl);
      takes = (scm_rights (21 ∷ 7 ∷ []) ∷ [], refl, refl);
    };
    reply_encodes = refl;
    reply_decodes = reply_codec-Decodes;
    reply_fits = record {
      bytes_64 = omega arith;
      bytes_usize = omega arith;
      fds_64 = omega arith;
      fds_usize = omega arith;
    };
    reply_delivers = record {
      looks = λ len le. ([], refl);
      takes = (scm_rights [] ∷ [], refl, refl);
    };
  };
}

register_reaches_owner_example :
    (receive_request answering Message.serializable codec 2 on_its_way
      ≡ (ok (register (record { fd = 7 }), 21), empty))
    × ((Owner.register client 1 5 empty).0
        ≡ map_ok (λ id. record { owner = 1; id = id }) (map_err os (ok 4)))
unfolding carried
register_reaches_owner_example =
    register_reaches_owner client 1 2 5 7 (ok 4) empty on_its_way carried
