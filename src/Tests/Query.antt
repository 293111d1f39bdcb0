-- ===== src/Tests/Query.antt =====
-- A client that asks for the lock on the file with ID 0, in an owner process that has it as descriptor 7.
use ulockmgr.Prelude.{ℕ, ◌≡◌, refl, none, some, [], ◌∷◌, arith}
use ulockmgr.Prelude.Assoc.{get}
use ulockmgr.IoError.{ok}
use ulockmgr.Types.{get_lock_status}
use ulockmgr.Messages.LockCommand.{done}
use ulockmgr.Messages.LockCommand
use ulockmgr.Messages.Message.{Message, lock_command}
use ulockmgr.Messages.Message
use ulockmgr.Client.Locking.{get_lock}
use ulockmgr.Daemon.State.{DaemonOwnerInner}
use ulockmgr.Daemon.Command.{replied, handle_lock_command}
use ulockmgr.Daemon.Spec.{file_of, descriptor_at}
use ulockmgr.Wire.Bytes.{to_ne_bytes, le_bytes}
use ulockmgr.Wire.Net.{scm_rights}
use ulockmgr.Wire.Raw.{frame, collect}
use ulockmgr.Protocol.Trip.{Trip, IsCarried}
use ulockmgr.Protocol.Query.{queried, get_lock_arrives}
use ulockmgr.Tests.Platform.{errnos, linux, linux-IsLibc, whole_file, toy_kernel, another}
use ulockmgr.Tests.Wire.{Queue, empty}
use ulockmgr.Tests.Codecs.{codec-Decodes, reply_codec, reply_codec-Decodes}
use ulockmgr.Tests.Locking.{client, answering, zeros, lockable}
use ulockmgr.Tests.Daemon.Schedule.{with_file, registered-Reach}

abbrev query_on_its_way : Queue
query_on_its_way = record { bytes = frame answering (0 ∷ zeros) (21 ∷ []); fds = 21 ∷ [] }

query_carried :
    Trip client reply_codec 1 2
      (lock_command (queried lockable whole_file))
      (ok (done whole_file))
      empty
      query_on_its_way
unfolding frame to_ne_bytes le_bytes collect Message.serialize LockCommand.serialize
query_carried = record {
  parent = 20;
  child = 21;
  bytes = 0 ∷ zeros;
  reply_bytes = zeros;
  paired = empty;
  sent = query_on_its_way;
  reaching = query_on_its_way;
  reached = empty;
  encodes = refl;
  decodes = codec-Decodes;
  fits = record {
    bytes_64 = omega arith;
    bytes_usize = omega arith;
    fds_64 = omega arith;
    fds_usize = omega arith;
  };
  pairs = refl;
  sends = refl;
  delivers = record {
    looks = λ len le. ([], refl);
    takes = (scm_rights (21 ∷ []) ∷ [], refl, refl);
  };
  reply_encodes = refl;
  reply_decodes = reply_codec-Decodes;
  reply_fits = record {
    bytes_64 = omega arith;
    bytes_usize = omega arith;
    fds_64 = omega arith;
    fds_usize = omega arith;
  };
  reply_delivers = record {
    looks = λ len le. ([], refl);
    takes = (scm_rights [] ∷ [], refl, refl);
  };
}

get_lock_arrives_example :
    (d' : DaemonOwnerInner) × IsCarried client query_carried
    × (handle_lock_command toy_kernel linux errnos
          (record { id = 0; action = get_lock_status; params = whole_file })
          none
          with_file
          another
        ≡ some (replied (ok (done whole_file)), d', another))
    × ((j : ℕ) → file_of j d' ≡ file_of j with_file)
    × ((get_lock client lockable whole_file empty).0 ≡ ok whole_file)
get_lock_arrives_example =
    get_lock_arrives client toy_kernel linux errnos linux-IsLibc lockable 7 whole_file whole_file
      none 2 tt another another empty empty query_on_its_way registered-Reach
      (unfold file_of descriptor_at get in refl) refl refl query_carried
