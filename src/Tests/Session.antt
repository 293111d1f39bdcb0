-- ===== src/Tests/Session.antt =====
-- A client that registers descriptor 5, which the owner gets as 7, locks it, and drops it.
use ulockmgr.Prelude.{ℕ, ◌≡◌, refl, none, some, [], ◌∷◌, arith}
use ulockmgr.IoError.{os, ok, map_ok, map_err}
use ulockmgr.Types.{set_lock_non_blocking, params_into_flock}
use ulockmgr.Messages.Message.{Message, register, unregister}
use ulockmgr.Messages.Message
use ulockmgr.Messages.Register
use ulockmgr.Messages.Unregister
use ulockmgr.Messages.LockCommand.{done}
use ulockmgr.Kernel.{function, ensure_sigaction_exists, cvt}
use ulockmgr.Client.Owner
use ulockmgr.Client.Owner.{drop_lockable}
use ulockmgr.Client.Locking.{set_lock_nonblocking}
use ulockmgr.Daemon.State.{DaemonOwnerInner, new_inner, acquire_exit_lock, new_arc}
use ulockmgr.Daemon.Ids.{insert_vacant, next_u64}
use ulockmgr.Daemon.Handlers.{
  handle_fd_register, register_locked, insert_descriptor, unregister_remove,
}
use ulockmgr.Prelude.Assoc.{get}
use ulockmgr.Daemon.System.{here}
use ulockmgr.Daemon.Command.{replied, handle_lock_command}
use ulockmgr.Daemon.Spec.{file_of}
use ulockmgr.Wire.Bytes.{to_ne_bytes, le_bytes}
use ulockmgr.Wire.Net.{scm_rights}
use ulockmgr.Wire.Raw.{frame, collect}
use ulockmgr.Protocol.Trip.{Trip, IsCarried}
use ulockmgr.Protocol.Registration.{Carries}
use ulockmgr.Protocol.Session.{lockable_session}
use ulockmgr.Tests.Platform.{errnos, linux, linux-IsLibc, whole_file, toy_kernel, setlk, nobody}
use ulockmgr.Tests.Wire.{Queue, empty}
use ulockmgr.Tests.Codecs.{
  codec-Decodes, id_codec, id_codec-Decodes, unit_codec, unit_codec-Decodes,
}
use ulockmgr.Tests.Locking.{client, answering, zeros, carried, on_its_way}
use ulockmgr.Tests.Daemon.Schedule.{with_file}

abbrev register_on_its_way : Queue
register_on_its_way = record { bytes = frame answering ([]) (21 ∷ 7 ∷ []); fds = 21 ∷ 7 ∷ [] }

register_carried :
    Trip client id_codec 1 2 (register (record { fd = 7 })) (ok 0) empty register_on_its_way
unfolding frame to_ne_bytes le_bytes collect Message.serialize Register.serialize
register_carried = record {
  parent = 20;
  child = 21;
  bytes = [];
  reply_bytes = zeros;
  paired = empty;
  sent = register_on_its_way;
  reaching = register_on_its_way;
  reached = empty;
  encodes = refl;
  decodes = codec-Decodes;
  fits = record {
    bytes_64 = omega arith;
    bytes_usize = omega arith;
    fds_64 = omega arith;
    fds_usize = omega arith;
  };
  pairs = refl;
  sends = refl;
  delivers = record {
    looks = λ len le. ([], refl);
    takes = (scm_rights (21 ∷ 7 ∷ []) ∷ [], refl, refl);
  };
  reply_encodes = refl;
  reply_decodes = id_codec-Decodes;
  reply_fits = record {
    bytes_64 = omega arith;
    bytes_usize = omega arith;
    fds_64 = omega arith;
    fds_usize = omega arith;
  };
  reply_delivers = record {
    looks = λ len le. ([], refl);
    takes = (scm_rights [] ∷ [], refl, refl);
  };
}

registering : Carries client 1 2 5 7 (ok 0) empty register_on_its_way
registering = record {
  blocked = empty;
  ready = empty;
  old = tt;
  masks = refl;
  clones = refl;
  trip = register_carried;
}

abbrev drop_on_its_way : Queue
drop_on_its_way = record { bytes = frame answering (0 ∷ []) (21 ∷ []); fds = 21 ∷ [] }

drop_carried :
    Trip client unit_codec 1 2 (unregister (record { id = 0 })) (ok tt) empty drop_on_its_way
unfolding frame to_ne_bytes le_bytes collect Message.serialize Unregister.serialize
drop_carried = record {
  parent = 20;
  child = 21;
  bytes = 0 ∷ [];
  reply_bytes = zeros;
  paired = empty;
  sent = drop_on_its_way;
  reaching = drop_on_its_way;
  reached = empty;
  encodes = refl;
  decodes = codec-Decodes;
  fits = record {
    bytes_64 = omega arith;
    bytes_usize = omega arith;
    fds_64 = omega arith;
    fds_usize = omega arith;
  };
  pairs = refl;
  sends = refl;
  delivers = record {
    looks = λ len le. ([], refl);
    takes = (scm_rights (21 ∷ []) ∷ [], refl, refl);
  };
  reply_encodes = refl;
  reply_decodes = unit_codec-Decodes;
  reply_fits = record {
    bytes_64 = omega arith;
    bytes_usize = omega arith;
    fds_64 = omega arith;
    fds_usize = omega arith;
  };
  reply_delivers = record {
    looks = λ len le. ([], refl);
    takes = (scm_rights [] ∷ [], refl, refl);
  };
}

handled : handle_fd_register 0 0 function new_inner (record { fd = 7 }) ≡ some (ok 0, with_file)
unfolding handle_fd_register acquire_exit_lock ensure_sigaction_exists cvt register_locked new_arc
    insert_descriptor insert_vacant next_u64 get
handled = refl

lockable_session_example :
    (d₂ : DaemonOwnerInner) × (a : ℕ) × IsCarried client registering.trip
    × ((Owner.register client 1 5 empty).0 ≡ ok (record { owner = 1; id = 0 }))
    × IsCarried client carried
    × (handle_lock_command toy_kernel linux errnos
          (record { id = 0; action = set_lock_non_blocking; params = whole_file })
          none
          with_file
          nobody
        ≡ some (
          replied (
              map_ok
                (λ _. done whole_file)
                (setlk 7 (params_into_flock linux whole_file) nobody).0),
          d₂,
          (setlk 7 (params_into_flock linux whole_file) nobody).1,
        ))
    × ((set_lock_nonblocking client (record { owner = 1; id = 0 }) whole_file empty).0
        ≡ map_ok
            (λ _. whole_file)
            (map_err os (setlk 7 (params_into_flock linux whole_file) nobody).0))
    × IsCarried client drop_carried
    × (drop_lockable client (record { owner = 1; id = 0 }) empty ≡ drop_on_its_way)
    × ((unregister_remove d₂ (record { id = 0 })).0 ≡ ok a)
    × ((j : ℕ) → file_of j (unregister_remove d₂ (record { id = 0 })).1 ≡ file_of j new_inner)
lockable_session_example =
    lockable_session client toy_kernel linux errnos linux-IsLibc 1 2 5 7 0 0 0 function whole_file
      none tt with_file nobody empty register_on_its_way empty empty on_its_way empty
      drop_on_its_way here refl handled registering refl carried drop_carried
