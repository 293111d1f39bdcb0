-- ===== src/Processes/Start.antt =====
-- A process of src/processes.rs from its start to the loop of src/main.rs that it runs.
use ulockmgr.Prelude.{
  ℕ, ◌^◌, ◌<◌, ◌≡◌, ◌≢◌, refl, Bool, true, false, none, some, List, [], ◌∷◌, arith, ◌==◌,
  if◌then◌else◌,
}
use ulockmgr.IoError.{ok}
use ulockmgr.Messages.RequestSpawnOwner.{Duration}
use ulockmgr.Processes.{
  Entry, Table, set, Arg, decimal, ttl_secs, ttl_nsecs, Process, Clap, Pair, Answers, spawn_process,
  spawn_owner_process, spawn_coordinator_process, duration_new, owning, spawning, main, run_mode,
  hydrate_forked_fd, fcntl_setfd, fcntl_getfd, clear_cloexec, exec, spawn,
}

-- What a new process is to have at a descriptor: its end of the pair, marked FD_CLOEXEC again, and
-- what was not marked in the process that started it.
abbrev pub inherited : Pair → Table → Table
inherited p t j =
    if p.child_fd == j
    then some (record { file = p.child_file; cloexec = true })
    else elim (t j) [ none ↦ none | some e ↦ if e.cloexec then none else some e ]

-- What the caller is to have: its end of the pair, and what it had.
abbrev pub kept : Pair → Table → Table
kept p t j =
    if p.parent_fd == j then some (record { file = p.parent_file; cloexec = true }) else t j

duration_new_lem :
    (ttl : Duration)
    → ttl.secs < 2 ^ 64
    → ttl.nanos < 10 ^ 9
    → duration_new ttl.secs ttl.nanos ≡ some ttl
unfolding duration_new
duration_new_lem ttl hs hn = ground arith

setfd_lem :
    (ebadf fd : ℕ) (flag : Bool) (e : Entry) (t : Table)
    → t fd ≡ some e
    → fcntl_setfd ebadf fd flag t ≡ ok (set fd (some (record e { cloexec = flag })) t)
unfolding fcntl_setfd
setfd_lem ebadf fd flag e t h = rw (h, fcntl_setfd) refl

clear_lem :
    (ebadf fd : ℕ) (e : Entry) (t : Table)
    → t fd ≡ some e
    → clear_cloexec ebadf fd t ≡ ok (set fd (some (record e { cloexec = false })) t)
unfolding clear_cloexec fcntl_getfd
clear_lem ebadf fd e t h = rw (h, clear_cloexec) (setfd_lem ebadf fd false e t h)

module _ (ebadf : ℕ) (clap : Clap) (p : Pair) (t : Table) where
  abbrev pub granted : Answers
  granted = record { socketpair = ok p; fork = ok tt; waitpid = ok tt }

  -- The descriptors of the pair are new.
  abbrev pub IsNew : Type 0
  IsNew = (t p.parent_fd ≡ none) × (t p.child_fd ≡ none) × (p.parent_fd ≢ p.child_fd)

  abbrev pub both_open : Table
  both_open =
      set p.child_fd (some (record { file = p.child_file; cloexec = true }))
        (set p.parent_fd (some (record { file = p.parent_file; cloexec = true })) t)

  abbrev cleared : Table
  cleared = set p.child_fd (some (record { file = p.child_file; cloexec = false })) both_open

  abbrev hydrated : Table
  hydrated = set p.child_fd (some (record { file = p.child_file; cloexec = true })) (exec cleared)

  spawned :
      (args : ℕ → List Arg)
      → spawn_process ebadf args granted t ≡ (
        ok p.parent_fd,
        set p.child_fd none both_open,
        some (record { table = exec cleared; args = args p.child_fd }),
      )
  unfolding spawn_process spawn
  spawned args =
      rw
        (
          clear_lem ebadf p.child_fd (record { file = p.child_file; cloexec = true }) both_open
              (ground arith),
          spawn,
          spawn_process,
        )
        refl

  hydrate_lem : hydrate_forked_fd ebadf p.child_fd (exec cleared) ≡ ok (p.child_fd, hydrated)
  unfolding hydrate_forked_fd exec
  hydrate_lem =
      rw
        (
          setfd_lem ebadf p.child_fd true (record { file = p.child_file; cloexec = false })
              (exec cleared) (ground arith),
          hydrate_forked_fd,
        )
        refl

  tables :
      IsNew
      → (j : ℕ) → (set p.child_fd none both_open j ≡ kept p t j) × (hydrated j ≡ inherited p t j)
  unfolding exec
  tables new j = (ground arith, ground arith)

  -- An owner process that the coordinator starts serves on its end of the pair, with the
  -- time-to-live that was asked for; it has that descriptor, marked FD_CLOEXEC, and no other but
  -- those that the coordinator had left unmarked, so not the coordinator's end; and the coordinator
  -- has its own end, and otherwise what it had. The calls succeed, and give new descriptors.
  pub spawn_owner_process-serves :
      (ttl : Duration)
      → IsNew
      → p.child_fd < 2 ^ 31
      → ttl.secs < 2 ^ 64
      → ttl.nanos < 10 ^ 9
      → (child : Process) × (table : Table) × (table' : Table) × (spawn_owner_process ebadf ttl
            granted t
          ≡ (ok p.parent_fd, table, some child))
        × (main ebadf clap (ok tt) child ≡ (owning p.child_fd ttl, table'))
        × ((j : ℕ) → (table j ≡ kept p t j) × (table' j ≡ inherited p t j))
  unfolding spawn_owner_process main run_mode
  spawn_owner_process-serves ttl new fits secs nanos = (
    record {
      table = exec cleared;
      args =
          Arg.owner
          ∷ decimal p.child_fd
          ∷ ttl_secs
          ∷ decimal ttl.secs
          ∷ ttl_nsecs
          ∷ decimal ttl.nanos
          ∷ [];
    },
    set p.child_fd none both_open,
    hydrated,
    spawned _,
    rw
        (
          clap.reads_owner p.child_fd ttl.secs ttl.nanos fits secs (omega arith),
          hydrate_lem,
          duration_new_lem ttl secs nanos,
          main,
          run_mode,
        )
        refl,
    tables new,
  )

  -- A coordinator that a client starts serves on its end of the pair; it has that descriptor, marked
  -- FD_CLOEXEC, and no other but those that the client had left unmarked; and the client has its own
  -- end, and otherwise what it had. The calls succeed, and give new descriptors.
  pub spawn_coordinator_process-serves :
      IsNew
      → p.child_fd < 2 ^ 31
      → (child : Process) × (table : Table) × (table' : Table) × (spawn_coordinator_process ebadf
            granted t
          ≡ (ok p.parent_fd, table, some child))
        × (main ebadf clap (ok tt) child ≡ (spawning p.child_fd, table'))
        × ((j : ℕ) → (table j ≡ kept p t j) × (table' j ≡ inherited p t j))
  unfolding spawn_coordinator_process main run_mode
  spawn_coordinator_process-serves new fits = (
    record { table = exec cleared; args = Arg.coordinator ∷ decimal p.child_fd ∷ [] },
    set p.child_fd none both_open,
    hydrated,
    spawned _,
    rw (clap.reads_coordinator p.child_fd fits, hydrate_lem, main, run_mode) refl,
    tables new,
  )
