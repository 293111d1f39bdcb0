-- ===== src/Tests/Daemon/Schedule.antt =====
-- Schedules of the threads of an owner process: a file is registered, unregistered, or locked; and
-- an owner without files exits.
use ulockmgr.Prelude.{List, arith, ℕ, ◌≡◌, ◌↔◌, refl, true, false, none, some, [], ◌∷◌, ◌++◌}
use ulockmgr.Prelude.Assoc.{get, put, remove}
use ulockmgr.IoError.{ok, broken_pipe, custom, err}
use ulockmgr.Kernel.{function, ensure_sigaction_exists, cvt}
use ulockmgr.Tracker.{new_tracker, track, insert_thread, contains, forbid_spawn}
use ulockmgr.Daemon.State.{
  FdData, DaemonOwnerInner, new_inner, acquire_exit_lock, try_exit, new_arc, clone_arc, drop_arc,
}
use ulockmgr.Daemon.Ids.{insert_vacant, next_u64}
use ulockmgr.Daemon.Handlers.{
  handle_fd_register, register_locked, insert_descriptor, unregister_remove,
}
use ulockmgr.Daemon.System.{
  Main, idle, System, Step, Reach, here, next, start_system, registers, spawns_unregister, looks_up,
  clones, spawns, removes, forbids, drained, exits, unregistering, stopping, draining, waiting,
  locking,
}
use ulockmgr.Daemon.Invariant.{strong_at, mapped, main_holds, tasks_hold, holders}
use ulockmgr.Daemon.Command.{handle_lock_command}
use ulockmgr.Messages.Message.{lock_command}
use ulockmgr.Daemon.Receive.{Incoming, dispatch, owner_receiving_loop}
use ulockmgr.Daemon.Receive.Path.{IsNewThread}
use ulockmgr.Daemon.Receive.Loop.{AreServed, Serves, owner_receiving_loop_refines}
use ulockmgr.Messages.LockCommand.{LockCommand}
use ulockmgr.Types.{set_lock_blocking}
use ulockmgr.Tests.Platform.{World, linux, errnos, whole_file, toy_kernel, nobody}
use ulockmgr.Daemon.Spec.{Change, named, file_of}
use ulockmgr.Daemon.Spec.Refines.{owner_refines}
use ulockmgr.Daemon.Safety.{strong-eq-holders, exited_unused, unregistered_alone}

abbrev the_file : FdData
the_file = record { descriptor = 7; strong = 1 }

abbrev pub with_file : DaemonOwnerInner
with_file = record new_inner {
  readers = 1;
  next_id = 1;
  descriptors = (0, 0) ∷ [];
  heap = (0, the_file) ∷ [];
  trackers = (0, new_tracker) ∷ [];
  next_address = 1;
}

abbrev pub registered : System
registered = record start_system { inner = with_file }

pub registered-Reach : Reach registered
unfolding handle_fd_register acquire_exit_lock ensure_sigaction_exists cvt register_locked new_arc
    insert_descriptor insert_vacant next_u64 get
registered-Reach = next here (registers 0 0 function (record { fd = 7 }) refl refl)

abbrev asked : System
asked = record registered { tasks = unregistering (record { id = 0 }) ∷ [] }

abbrev removed : System
removed = record registered {
  inner = record with_file { descriptors = [] };
  tasks = stopping 0 ∷ [];
}

abbrev forbidden : System
forbidden = record registered {
  inner = record with_file {
    descriptors = [];
    trackers = (0, record new_tracker { can_spawn = false }) ∷ [];
  };
  tasks = draining 0 ∷ [];
}

abbrev pub alone : System
alone = record forbidden { tasks = waiting 0 ∷ [] }

asked-Reach : Reach asked
asked-Reach = next registered-Reach (spawns_unregister (record { id = 0 }) refl)

asked-Step : Step asked removed
unfolding unregister_remove get remove
asked-Step = removes (record { id = 0 }) 0 [] [] refl refl

removed-Reach : Reach removed
removed-Reach = next asked-Reach asked-Step

owner_refines_example :
    Change (named with_file) (named (record with_file { descriptors = [] }))
    × ((id : ℕ)
        → (file_of id (record with_file { descriptors = [] }) ≡ none)
          ↔ (get id removed.inner.descriptors ≡ none))
owner_refines_example = owner_refines asked-Reach asked-Step

forbidden-Reach : Reach forbidden
unfolding get forbid_spawn put
forbidden-Reach = next removed-Reach (forbids 0 new_tracker [] [] refl refl)

pub alone-Reach : Reach alone
unfolding get
alone-Reach =
    next forbidden-Reach (drained 0 (record new_tracker { can_spawn = false }) [] [] refl refl refl)

unregistered_alone_example :
    (mapped 0 alone.inner.descriptors ≡ 0)
    × (main_holds 0 alone.main ≡ 0)
    × (tasks_hold 0 ([] ++ []) ≡ 0)
    × (get 0 (drop_arc 0 alone.inner).heap ≡ none)
unregistered_alone_example =
    unregistered_alone 0 the_file [] [] alone-Reach refl (unfold get in refl) refl

-- The command loop and a lock thread hold the file beside the map.
abbrev pub locked : System
locked = record {
  inner = record with_file {
    heap = (0, record the_file { strong = 3 }) ∷ [];
    trackers = (0, record new_tracker { threads = 9 ∷ []; new_thread = true }) ∷ [];
  };
  main = Main.using 0;
  tasks = locking 0 9 ∷ [];
}

pub locked-Reach : Reach locked
unfolding clone_arc get put track insert_thread contains
locked-Reach =
    next (next (next registered-Reach (looks_up 0 0 refl refl)) (clones 0 refl))
      (spawns 0 9 new_tracker refl refl refl refl)

strong-eq-holders_example : strong_at 0 locked.inner.heap ≡ holders 0 locked
strong-eq-holders_example = strong-eq-holders locked-Reach 0

abbrev exited : System
exited = record start_system { inner = record new_inner { exit_lock = true } }

exited-Reach : Reach exited
unfolding try_exit
exited-Reach = next here (exits refl)

exited_unused_example :
    (exited.inner.descriptors ≡ [])
    × (exited.main ≡ idle)
    × ((a : ℕ) → tasks_hold a exited.tasks ≡ 0)
exited_unused_example = exited_unused exited-Reach refl

abbrev lock_it : LockCommand
lock_it = record { id = 0; action = set_lock_blocking; params = whole_file }

abbrev incoming : Incoming
incoming = record {
  request = ok (lock_command lock_it, 20);
  ret = 0;
  errno = 0;
  handler = function;
  thread = some 9;
}

nine_is_new : IsNewThread (some 9) with_file
unfolding get contains
nine_is_new a t g e found = ground arith

-- A request to take a lock, and the end of the connection.
abbrev requests : List Incoming
requests = incoming ∷ record incoming { request = err (custom broken_pipe) } ∷ []

requests-AreServed : (w : World) → AreServed toy_kernel linux errnos requests with_file w
unfolding dispatch handle_lock_command get
requests-AreServed w = (omega arith, nine_is_new, tt)

owner_receiving_loop_refines_example :
    Serves toy_kernel linux errnos with_file []
      (owner_receiving_loop toy_kernel linux errnos requests with_file nobody)
owner_receiving_loop_refines_example =
    owner_receiving_loop_refines toy_kernel linux errnos requests with_file nobody []
      registered-Reach (requests-AreServed _)
