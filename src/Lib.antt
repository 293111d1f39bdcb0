-- ===== src/Lib.antt =====
-- ulockmgr: file locks with POSIX semantics for any number of owners, each owner a process of its
-- own, since the kernel ties a lock to a process.
--
-- The program. A client has a `LockManager` (src/lib.rs), which keeps one owner process for each
-- owner ID, asks a coordinator to start them on demand, and registers files with them. An owner
-- process (src/owner.rs, `DaemonOwner`) receives requests on a socket (src/messages.rs), keeps the
-- registered files and the interrupts in two maps, starts a thread for each blocking lock
-- (src/tracker.rs), and exits after a time-to-live in which no file is registered. The client waits
-- for a blocking lock in `RawLockable::set_lock_blocking` (src/owner.rs), and turns a signal that
-- interrupts it into a request to the owner.
--
-- Files.
--   Types: src/types.rs. `Encoding` has the enumerations and their conversions to C integers, which
--     are bit patterns; the constants of libc are a parameter. `RoundTrip` is about them, and
--     `Accepted` about the structures that are accepted.
--   IoError: std::io::Error, Errno, and `io_cvt` of src/owner.rs.
--   Kernel: src/helpers.rs, over the system calls as an interface.
--   Messages: src/messages.rs, the traits and each message with `serialize` and `deserialize`.
--   Wire: src/messages.rs, from `receive_raw_message` to `send_request`, over the socket calls and
--     bincode as interfaces.
--   Backoff: the backoff of crossbeam, as an interface. Waiter: src/waiter.rs.
--   Tracker: src/tracker.rs, each critical section of `RawInterruptibleTracker`; `Stop` has
--     them in any order after `stop`, `Loops` the loop of `InterruptibleTracker::stop` with what
--     other threads do in each round, `Ends` is about it, and `Handle` is
--     `InterruptibleHandle::stop`. `Guard` is `InterruptibleGuard` with its exit flag, and
--     `InterruptibleTracker::guard`, with the guards of all threads as a step relation. `Order`
--     has the HashSet of threads as a quotient of lists, and compares orders of critical sections.
--   Daemon: the owner process of src/owner.rs. `State` is `DaemonOwnerInner`, with an `Arc` as an
--     address into a heap with counts; `Handlers` and `Ids` are the handlers and their loop over
--     IDs; `Lock` and `Command` the lock commands; `Receive` is `owner_receiving_loop`, and
--     `Receive/Loop` ties it to the steps of `System`; `Start` is
--     `DaemonOwner::start`. `System` has the threads as a step relation, one step for one access to
--     shared state, `Invariant` what every step keeps, and `Safety` what follows for every schedule.
--     `Threads` ties the threads to their trackers, and is about what an unregistration waits for;
--     `Bounds` is about the IDs, and `Answers` about the handlers that give them out. `Spec` is the owner as its clients see it, a file for each ID, and
--     `Spec/Refines` ties the steps of the threads to it.
--   Client: `RawLockable` of src/owner.rs; `Wait` is the loop of `set_lock_blocking`,
--     `Detached` is `set_lock_blocking_detached`; `Owner` has `Owner::register`, `Owner::ping` and
--     the drops that send a request, and `Locking` the lock commands that do not wait, down to the
--     socket.
--   Protocol: client and server of one lock, of one registration, or of the creation of an
--     owner process, together; `Trip` is one request with its answer
--     over the sockets, `Relock` the thread of a lock that is granted at once, `ShortHeader` the
--     command loop over a header that is cut short, and `Session` a file from its registration to the drop of its `Lockable`.
--   Manager: `LockManager` of src/lib.rs, over the requests that it makes as an interface, which
--     `Connect` fills with those of `Client/Owner`. `Owners` has `get_or_create_owner` and `register`
--     as one call during which no other thread of the client uses the map, though the program shares
--     it with other callers and the cleanup thread, and `Live` and `Returns` are about such a call; `Cleanup` is the cleanup thread and the drop of
--     the manager, `Start` is `from_exe`. `Callers` has the threads of a client in
--     `get_or_create_owner` interleaved with each other, the cleanup thread, and the ends of owner
--     processes: an owner is named by the order of creation, and answers a ping if it lives;
--     `Callers/Alone` is about a caller that goes on alone from wherever the others have stopped.
--   Spawner: src/owner_spawner.rs, the loop of the coordinator.
--   Processes: src/processes.rs, src/communication.rs and src/main.rs. A process is a table of
--     descriptors with their flag FD_CLOEXEC, and its arguments; `Start` follows a process from
--     its creation to the loop that it runs.
--   Prelude: shared names and lemmas; `Assoc` is the map, for DashMap.
--   Tests: a Linux platform, toy kernels and sockets, and schedules.
--
-- Numbers and loops. An ID is an AtomicU64 and wraps at 2^64. The loop over IDs has one more fuel
-- than the map has entries. `get_or_create_owner` and `register` take fuel as arguments, since they
-- end only if owner processes answer; if new ones do, a fuel of two is enough for the former. A loop that waits for the world takes the list of what the
-- world answers.
--
-- Not modelled: allocation and its failure; the standard streams of a new process, and what clap
-- derives, which is a parameter; closing of descriptors, except of a registered file and of those of
-- a spawn; the text of log lines and errors; condition variables, which only decide when a loop
-- looks again (src/tracker.rs); the mutex of a client's socket.
pub mod Prelude
pub mod IoError
pub mod Types
pub mod Messages
pub mod Kernel
pub mod Backoff
pub mod Waiter
pub mod Tracker
pub mod Daemon
pub mod Client
pub mod Protocol
pub mod Manager
pub mod Spawner
pub mod Wire
pub mod Processes
pub mod Tests
