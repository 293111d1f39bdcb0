-- ===== src/Tests/Locking.antt =====
-- A client that locks the file with ID 0, in an owner process that has it as descriptor 7.
use ulockmgr.Prelude.{
  ℕ, ◌+◌, ◌≡◌, refl, Bool, none, some, List, [], ◌∷◌, arith, ◌==◌, if◌then◌else◌,
}
use ulockmgr.Prelude.Assoc.{get}
use ulockmgr.IoError.{os, Result, ok, map_ok, map_err}
use ulockmgr.Types.{set_lock_non_blocking, params_into_flock}
use ulockmgr.Messages.Traits.{OwnedFd}
use ulockmgr.Messages.LockCommand.{ReplyLockCommandData, pending, done}
use ulockmgr.Messages.LockCommand
use ulockmgr.Messages.Message.{Message, lock_command}
use ulockmgr.Messages.Message
use ulockmgr.Client.Owner.{Client, RawLockable}
use ulockmgr.Client.Locking.{set_lock_nonblocking}
use ulockmgr.Daemon.State.{DaemonOwnerInner}
use ulockmgr.Daemon.Command.{replied, handle_lock_command}
use ulockmgr.Daemon.Spec.{file_of, descriptor_at}
use ulockmgr.Wire.Bytes.{to_ne_bytes, le_bytes}
use ulockmgr.Wire.Net.{Received, scm_rights, Net}
use ulockmgr.Wire.Raw.{frame, collect}
use ulockmgr.Wire.Request.{receive_request}
use ulockmgr.Protocol.Trip.{Trip}
use ulockmgr.Protocol.Locking.{asked, granted, set_lock_nonblocking_arrives}
use ulockmgr.Tests.Platform.{errnos, linux, linux-IsLibc, whole_file, toy_kernel, setlk, nobody}
use ulockmgr.Tests.Wire.{Queue, recvmsg, empty, net}
use ulockmgr.Tests.Registration.{no_codec}
use ulockmgr.Tests.Daemon.Schedule.{with_file, registered-Reach}
use ulockmgr.Tests.Codecs.{
  codec, codec-Decodes, reply_codec, reply_codec-Decodes, id_codec, unit_codec,
}

-- The replies `Ok(Done(whole_file))`, `Ok(0)` and `Ok(())` alike, which stay at the client's end of the pair.
abbrev reply_waiting : Queue
reply_waiting = record {
  bytes = 4 ∷ 0 ∷ 0 ∷ 0 ∷ 0 ∷ 0 ∷ 0 ∷ 0 ∷ 0 ∷ 0 ∷ 0 ∷ 0 ∷ 0 ∷ 0 ∷ 0 ∷ 0 ∷ 0 ∷ 0 ∷ 0 ∷ 0 ∷ [];
  fds = [];
}

abbrev recv_at : OwnedFd → (len room : ℕ) → (peek : Bool) → Queue → Result Received ℕ × Queue
recv_at socket len room peek q =
    if socket == 20
    then ((recvmsg socket len room peek reply_waiting).0, q)
    else recvmsg socket len room peek q

abbrev pub answering : Net
answering = record net { recvmsg = recv_at }

abbrev pub client : Client
client = record {
  net = answering;
  SigSet = Unit {0};
  block_all_signals = λ q. (ok tt, q);
  restore = λ _ q. q;
  try_clone_to_owned = λ fd q. (ok (fd + 2), q);
  errnos = errnos;
  raw_message = codec;
  duration = no_codec;
  unit_reply = unit_codec;
  id_reply = id_codec;
  lock_reply = reply_codec;
}

abbrev pub lockable : RawLockable
lockable = record { owner = 1; id = 0 }

abbrev pub zeros : List ℕ
zeros = 0 ∷ 0 ∷ 0 ∷ 0 ∷ []

abbrev pub on_its_way : Queue
on_its_way = record { bytes = frame answering zeros (21 ∷ []); fds = 21 ∷ [] }

pub carried :
    Trip client reply_codec 1 2
      (lock_command (asked lockable whole_file))
      (granted whole_file (ok tt))
      empty
      on_its_way
unfolding frame to_ne_bytes le_bytes collect Message.serialize LockCommand.serialize
carried = record {
  parent = 20;
  child = 21;
  bytes = zeros;
  reply_bytes = zeros;
  paired = empty;
  sent = on_its_way;
  reaching = on_its_way;
  reached = empty;
  encodes = refl;
  decodes = codec-Decodes;
  fits = record {
    bytes_64 = omega arith;
    bytes_usize = omega arith;
    fds_64 = omega arith;
    fds_usize = omega arith;
  };
  pairs = refl;
  sends = refl;
  delivers = record {
    looks = λ len le. ([], refl);
    takes = (scm_rights (21 ∷ []) ∷ [], refl, refl);
  };
  reply_encodes = refl;
  reply_decodes = reply_codec-Decodes;
  reply_fits = record {
    bytes_64 = omega arith;
    bytes_usize = omega arith;
    fds_64 = omega arith;
    fds_usize = omega arith;
  };
  reply_delivers = record {
    looks = λ len le. ([], refl);
    takes = (scm_rights [] ∷ [], refl, refl);
  };
}

set_lock_nonblocking_arrives_example :
    (d' : DaemonOwnerInner) × (receive_request answering Message.serializable codec 2 on_its_way ≡ (
      ok (
        lock_command (record { id = 0; action = set_lock_non_blocking; params = whole_file }),
        21,
      ),
      empty,
    ))
    × (handle_lock_command toy_kernel linux errnos
          (record { id = 0; action = set_lock_non_blocking; params = whole_file })
          none
          with_file
          nobody
        ≡ some (
          replied (
              map_ok
                (λ _. done whole_file)
                (setlk 7 (params_into_flock linux whole_file) nobody).0),
          d',
          (setlk 7 (params_into_flock linux whole_file) nobody).1,
        ))
    × ((j : ℕ) → file_of j d' ≡ file_of j with_file)
    × ((set_lock_nonblocking client lockable whole_file empty).0
        ≡ map_ok
            (λ _. whole_file)
            (map_err os (setlk 7 (params_into_flock linux whole_file) nobody).0))
unfolding carried
set_lock_nonblocking_arrives_example =
    set_lock_nonblocking_arrives client toy_kernel linux errnos linux-IsLibc lockable 7 whole_file
      none 2 tt nobody empty empty on_its_way registered-Reach
      (unfold file_of descriptor_at get in refl) refl carried
