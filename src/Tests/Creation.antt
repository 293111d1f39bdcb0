-- ===== src/Tests/Creation.antt =====
-- A client without owners that asks for one, with a coordinator whose socket is at 0.
use ulockmgr.Prelude.{
  ℕ, ◌≡◌, refl, Bool, true, false, none, some, List, [], ◌∷◌, arith, ◌==◌, if◌then◌else◌,
}
use ulockmgr.Prelude.Assoc.{get, insert}
use ulockmgr.IoError.{os, Result, ok, err, map_err}
use ulockmgr.Messages.Traits.{OwnedFd}
use ulockmgr.Messages.RequestSpawnOwner.{Duration, create_reply}
use ulockmgr.Messages.RequestSpawnOwner
use ulockmgr.Client.Owner.{Client}
use ulockmgr.Wire.Bytes.{to_ne_bytes, le_bytes}
use ulockmgr.Wire.Net.{Received, scm_rights, Net}
use ulockmgr.Wire.Raw.{frame, collect}
use ulockmgr.Wire.Request.{Codec, Decodes, receive_request}
use ulockmgr.Manager.Owners.{build, find_or_spawn}
use ulockmgr.Manager.Connect.{connect}
use ulockmgr.Spawner.{serve}
use ulockmgr.Processes.{Process, owning, spawn_owner_process, main}
use ulockmgr.Processes.Start.{granted}
use ulockmgr.Protocol.Creation.{Grants, owner_is_created}
use ulockmgr.Tests.Platform.{errnos}
use ulockmgr.Tests.Wire.{Queue, recvmsg, empty, net}
use ulockmgr.Tests.Processes.{clap, coordinator_table, sockets, sockets-IsNew, five_seconds}
use ulockmgr.Tests.Registration.{client}

-- Whole seconds below 256, and the reply `Ok(())`.
abbrev encode : Duration → Result (List ℕ) (Unit {0})
encode t = ok (t.secs ∷ t.nanos ∷ [])

abbrev decode : List ℕ → Result Duration (Unit {0})
decode (s ∷ n ∷ []) = ok (record { secs = s; nanos = n })
decode _ = err tt

abbrev durations : Codec Duration
durations = record { encode = encode; decode = decode }

durations-Decodes : Decodes durations
durations-Decodes d bytes e = ground arith

abbrev encode_unit : Result (Unit {0}) ℕ → Result (List ℕ) (Unit {0})
encode_unit (ok _) = ok (0 ∷ [])
encode_unit (err x) = ok (1 ∷ x ∷ [])

abbrev decode_unit : List ℕ → Result (Result (Unit {0}) ℕ) (Unit {0})
decode_unit (tag ∷ []) = ok (ok tt)
decode_unit (tag ∷ x ∷ []) = ok (err x)
decode_unit _ = err tt

abbrev units : Codec (Result (Unit {0}) ℕ)
units = record { encode = encode_unit; decode = decode_unit }

units-Decodes : Decodes units
units-Decodes (ok _) bytes e = ground arith
units-Decodes (err x) bytes e = ground arith

-- The reply with the new owner's socket, 5, which stays at the client's end of the pair.
abbrev granted_reply : Queue
granted_reply = record {
  bytes = 1 ∷ 0 ∷ 0 ∷ 0 ∷ 0 ∷ 0 ∷ 0 ∷ 0 ∷ 1 ∷ 0 ∷ 0 ∷ 0 ∷ 0 ∷ 0 ∷ 0 ∷ 0 ∷ 0 ∷ [];
  fds = 5 ∷ [];
}

abbrev recv_at : OwnedFd → (len room : ℕ) → (peek : Bool) → Queue → Result Received ℕ × Queue
recv_at socket len room peek q =
    if socket == 20
    then ((recvmsg socket len room peek granted_reply).0, q)
    else recvmsg socket len room peek q

abbrev granting : Net
granting = record net { recvmsg = recv_at }

abbrev asking : Client
asking = record client { net = granting; duration = durations; unit_reply = units }

abbrev on_its_way : Queue
on_its_way = record { bytes = frame granting (5 ∷ 0 ∷ []) (21 ∷ []); fds = 21 ∷ [] }

grants :
    Grants asking 1 0 20 21 5 five_seconds
      (5 ∷ 0 ∷ [])
      (0 ∷ [])
      empty
      empty
      on_its_way
      on_its_way
      empty
      on_its_way
unfolding frame to_ne_bytes le_bytes collect
grants = record {
  encodes = refl;
  decodes = durations-Decodes;
  fits = record {
    bytes_64 = omega arith;
    bytes_usize = omega arith;
    fds_64 = omega arith;
    fds_usize = omega arith;
  };
  pairs = refl;
  sends = refl;
  delivers = record {
    looks = λ len le. ([], refl);
    takes = (scm_rights (21 ∷ []) ∷ [], refl, refl);
  };
  reply_encodes = refl;
  reply_decodes = units-Decodes;
  reply_fits = record {
    bytes_64 = omega arith;
    bytes_usize = omega arith;
    fds_64 = omega arith;
    fds_usize = omega arith;
  };
  reply_delivers = record {
    looks = λ len le. ([], refl);
    takes = (scm_rights (5 ∷ []) ∷ [], refl, refl);
  };
}

owner_is_created_example :
    let (spawned, _, process) =
      spawn_owner_process 9 five_seconds
        (granted 9 clap sockets coordinator_table)
        coordinator_table in
    (serve errnos (
        record {
          request =
              (receive_request granting RequestSpawnOwner.serializable durations 0 on_its_way).0;
          spawned = map_err os spawned;
        }
        ∷ [])
      ≡ (none, record { ttl = five_seconds; reply = create_reply 21; fds = 5 ∷ [] } ∷ []))
    × (find_or_spawn (connect asking 1) errnos 77 five_seconds false build empty
        ≡ (ok (5, true), record build { owners = insert 77 5 [] }, on_its_way))
    × ((new : Process) × (process ≡ some new)
        × ((main 9 clap (ok tt) new).0 ≡ owning 6 five_seconds))
owner_is_created_example =
    owner_is_created asking 9 clap sockets coordinator_table 1 0 20 21 77 five_seconds build
      (5 ∷ 0 ∷ []) (0 ∷ []) empty empty on_its_way on_its_way empty on_its_way grants sockets-IsNew
      (omega arith) (omega arith) (omega arith) (unfold get in refl)
