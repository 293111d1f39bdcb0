-- ===== src/Manager/Start.antt =====
-- `LockManager::from_exe` of src/lib.rs: a manager with a coordinator process of its own.
use ulockmgr.Prelude.{ℕ, ◌<◌, ◌^◌, ◌≡◌, Option, none, some, arith}
use ulockmgr.IoError.{IoError, os, Result, ok, err}
use ulockmgr.Messages.Traits.{OwnedFd}
use ulockmgr.Manager.Owners.{LockManager, build}
use ulockmgr.Processes.{
  Table, set, Process, Clap, Pair, Answers, spawning, spawn_coordinator_process, main,
}
use ulockmgr.Processes.Start.{granted, kept, inherited, IsNew, spawn_coordinator_process-serves}

-- The result is the manager with its field `communication`; then the descriptors of the client, and
-- the coordinator. `thread` is what the spawn of the cleanup thread gives.
unfoldable pub from_exe :
    ℕ
    → Answers
    → Result (Unit {0}) ℕ
    → Table
    → Result (OwnedFd × LockManager) IoError × Table × Option Process
from_exe ebadf answers thread t =
    let (spawned, t', child) = spawn_coordinator_process ebadf answers t in
    elim spawned [
      | err e ↦ (err (os e), t', child)
      | ok coordinator_fd ↦ elim thread [
        | err e ↦ (err (os e), set coordinator_fd none t', child)
        | ok _ ↦ (ok (coordinator_fd, build), t', child)
      ]
    ]

after_spawn :
    (ebadf : ℕ) (answers : Answers) (t t' : Table) (fd : OwnedFd) (child : Option Process)
    → spawn_coordinator_process ebadf answers t ≡ (ok fd, t', child)
    → from_exe ebadf answers (ok tt) t ≡ (ok (fd, build), t', child)
unfolding from_exe
after_spawn ebadf answers t t' fd child e = ground (arith, e)

-- A manager that is made from a program knows no owners, and has its end of a new pair of sockets;
-- the coordinator serves on the other end, has it marked FD_CLOEXEC, and has no other descriptor but
-- those that the client had left unmarked. The calls succeed, and give new descriptors.
pub from_exe_serves :
    (ebadf : ℕ) (clap : Clap) (p : Pair) (t : Table)
    → IsNew ebadf clap p t
    → p.child_fd < 2 ^ 31
    → (child : Process) × (table : Table) × (table' : Table) × (from_exe ebadf
          (granted ebadf clap p t)
          (ok tt)
          t
        ≡ (ok (p.parent_fd, build), table, some child))
      × (main ebadf clap (ok tt) child ≡ (spawning p.child_fd, table'))
      × ((j : ℕ) → (table j ≡ kept p t j) × (table' j ≡ inherited p t j))
from_exe_serves ebadf clap p t new fits =
    let (child, table, table', spawned, serves, tables) =
      spawn_coordinator_process-serves ebadf clap p t new fits in
    (
      child,
      table,
      table',
      after_spawn ebadf _ t table p.parent_fd (some child) spawned,
      serves,
      tables,
    )
