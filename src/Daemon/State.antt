-- ===== src/Daemon/State.antt =====
-- The state of an owner process: `FdData`, `DaemonOwnerInner` and the exit lock of src/owner.rs.
-- `Arc<FdData>` is an address into a heap with the count of its owners; the read guards of the
-- exit lock are counted. The message of an error and the socket are left out.
use ulockmgr.Prelude.{ℕ, ◌+◌, ◌-◌, Bool, true, false, none, some, [], ◌==◌, if◌then◌else◌}
use ulockmgr.Prelude.Assoc.{Assoc, get, insert, put, remove}
use ulockmgr.Tracker.{TrackerData, new_tracker}
pub use ulockmgr.Tracker.{InterruptibleHandle}
use ulockmgr.IoError.{IoError, custom, broken_pipe, resource_busy, Result, ok, err}

-- `strong` is `Arc::strong_count`. The tracker, an `Arc` of its own which the threads share, stands
-- in `trackers` at the address of the `FdData`.
pub record FdData : Type 0 where
  pub descriptor : ℕ
  pub strong : ℕ

pub record DaemonOwnerInner : Type 0 where
  pub exit_lock : Bool
  pub readers : ℕ
  pub next_id : ℕ
  pub descriptors : Assoc ℕ
  pub interrupts : Assoc InterruptibleHandle
  pub interrupt_next_id : ℕ
  pub heap : Assoc FdData
  pub trackers : Assoc TrackerData
  pub next_address : ℕ

-- The state that `DaemonOwner::new` makes.
abbrev pub new_inner : DaemonOwnerInner
new_inner = record {
  exit_lock = false;
  readers = 0;
  next_id = 0;
  descriptors = [];
  interrupts = [];
  interrupt_next_id = 0;
  heap = [];
  trackers = [];
  next_address = 0;
}

-- The guard that is made for the test is dropped again on the error path.
unfoldable pub acquire_exit_lock : DaemonOwnerInner → Result (Unit {0}) IoError × DaemonOwnerInner
acquire_exit_lock d =
    if d.exit_lock
    then (err (custom broken_pipe), d)
    else (ok tt, record d { readers = d.readers + 1 })

-- `try_write` fails while there is a reader.
unfoldable pub try_exit : DaemonOwnerInner → Result (Unit {0}) IoError × DaemonOwnerInner
try_exit d =
    if d.readers == 0
    then (ok tt, record d { exit_lock = true })
    else (err (custom resource_busy), d)

-- `DaemonOwnerInner::drop`: an error is only logged.
unfoldable pub drop_inner : DaemonOwnerInner → DaemonOwnerInner
drop_inner d = (try_exit d).1

-- `Arc::new` of a new `FdData`, which takes the guard of the exit lock over.
unfoldable pub new_arc : ℕ → DaemonOwnerInner → ℕ × DaemonOwnerInner
new_arc fd d = (
  d.next_address,
  record d {
    next_address = d.next_address + 1;
    heap = insert d.next_address (record { descriptor = fd; strong = 1 }) d.heap;
    trackers = insert d.next_address new_tracker d.trackers;
  },
)

-- `Arc::clone`
unfoldable pub clone_arc : ℕ → DaemonOwnerInner → DaemonOwnerInner
clone_arc a d = elim (get a d.heap) [
  | none ↦ d
  | some x ↦ record d { heap = put a (record x { strong = x.strong + 1 }) d.heap }
]

-- `drop` of an `Arc`: the last one drops the `FdData`, and so its read guard.
unfoldable pub drop_arc : ℕ → DaemonOwnerInner → DaemonOwnerInner
drop_arc a d = elim (get a d.heap) [
  | none ↦ d
  | some x ↦
      if x.strong == 1
      then record d { heap = remove a d.heap; readers = d.readers - 1 }
      else record d { heap = put a (record x { strong = x.strong - 1 }) d.heap }
]
