-- ===== src/Processes.antt =====
-- src/processes.rs, src/communication.rs and src/main.rs: how the coordinator and the owner processes are
-- started, with one end of a socket pair and their arguments.
-- A process has a table of descriptors, with the open file and the flag FD_CLOEXEC of each; standard
-- streams and memory are left out. An argument is one of the texts that the program writes, or the
-- decimal digits of a number, so that `to_string` is `decimal`.
pub mod Start
use ulockmgr.Prelude.{
  ℕ, zero, ◌+◌, ◌/◌, ◌%◌, ◌^◌, ◌<◌, Bool, true, false, Option, none, some, List, [], ◌∷◌, ltb, ◌==◌,
  ◌≡◌, if◌then◌else◌,
}
use ulockmgr.IoError.{Result, ok, err, ◌>>=◌}
use ulockmgr.Messages.Traits.{OwnedFd}
use ulockmgr.Messages.RequestSpawnOwner.{Duration}

pub record Entry : Type 0 where
  pub file : ℕ
  pub cloexec : Bool

abbrev pub Table : Type 0
Table = ℕ → Option Entry

-- A descriptor opened, changed or closed.
abbrev pub set : ℕ → Option Entry → Table → Table
set fd e t j = if fd == j then e else t j

pub data Arg : Type 0 where
  coordinator owner ttl_secs ttl_nsecs : Arg
  decimal : ℕ → Arg

pub record Process : Type 0 where
  pub table : Table
  pub args : List Arg

-- `OperationMode`
pub data OperationMode : Type 0 where
  coordinator : (fd : ℕ) → OperationMode
  owner : (fd ttl_secs ttl_nsecs : ℕ) → OperationMode

-- `Args::parse`, which clap derives, as an interface: what it documents is that a subcommand is read
-- with its positional argument and its long options, where their numbers fit the types.
pub record Clap : Type 0 where
  pub parse : List Arg → Result OperationMode (Unit {0})
  pub reads_coordinator :
      (fd : ℕ)
      → fd < 2 ^ 31
      → parse (Arg.coordinator ∷ decimal fd ∷ []) ≡ ok (OperationMode.coordinator fd)
  pub reads_owner :
      (fd secs nsecs : ℕ)
      → fd < 2 ^ 31
      → secs < 2 ^ 64
      → nsecs < 2 ^ 32
      → parse (Arg.owner ∷ decimal fd ∷ ttl_secs ∷ decimal secs ∷ ttl_nsecs ∷ decimal nsecs ∷ [])
        ≡ ok (OperationMode.owner fd secs nsecs)

-- What the operating system answers to the calls of a spawn. The pair comes with the open files of
-- its two ends; `fork` is the part of `Command::spawn` that does not run in the new process.
pub record Pair : Type 0 where
  pub parent_fd : OwnedFd
  pub child_fd : OwnedFd
  pub parent_file : ℕ
  pub child_file : ℕ

pub record Answers : Type 0 where
  pub socketpair : Result Pair ℕ
  pub fork : Result (Unit {0}) ℕ
  pub waitpid : Result (Unit {0}) ℕ

-- `exec` closes what is marked FD_CLOEXEC.
unfoldable pub exec : Table → Table
exec t j = elim (t j) [ none ↦ none | some e ↦ if e.cloexec then none else some e ]

-- The number of EBADF.
module _ (ebadf : ℕ) where
  -- `fcntl` with F_GETFD and F_SETFD, on the flag FD_CLOEXEC.
  unfoldable pub fcntl_getfd : ℕ → Table → Result Bool ℕ
  fcntl_getfd fd t = elim (t fd) [ none ↦ err ebadf | some e ↦ ok e.cloexec ]

  unfoldable pub fcntl_setfd : ℕ → Bool → Table → Result Table ℕ
  fcntl_setfd fd flag t = elim (t fd) [
    | none ↦ err ebadf
    | some e ↦ ok (set fd (some (record e { cloexec = flag })) t)
  ]

  -- The closure of `clear_cloexec_in_pre_exec`: `flags & !CLOEXEC`.
  unfoldable pub clear_cloexec : ℕ → Table → Result Table ℕ
  unfolding fcntl_getfd fcntl_setfd
  clear_cloexec fd t = elim (fcntl_getfd fd t) [ err e ↦ err e | ok flags ↦ fcntl_setfd fd false t ]

  -- `Command::spawn`: fork, the closure in the new process, and exec.
  unfoldable pub spawn : ℕ → List Arg → Table → Result Process ℕ
  unfolding clear_cloexec exec
  spawn child_fd args t = elim (clear_cloexec child_fd t) [
    | err e ↦ err e
    | ok t' ↦ ok (record { table = exec t'; args = args })
  ]

  -- The body that `spawn_owner_process` and `spawn_coordinator_process` share: the result, the table
  -- of the calling process, and the new process if there is one. Both ends are closed on the way out
  -- of an error, and the child's in any case.
  unfoldable pub spawn_process :
      (ℕ → List Arg) → Answers → Table → Result OwnedFd ℕ × Table × Option Process
  spawn_process args answers t = elim answers.socketpair [
    | err e ↦ (err e, t, none)
    | ok p ↦
        let opened =
          set p.child_fd (some (record { file = p.child_file; cloexec = true }))
            (set p.parent_fd (some (record { file = p.parent_file; cloexec = true })) t) in
        let closed = set p.child_fd none (set p.parent_fd none opened) in
        elim answers.fork [
          | err e ↦ (err e, closed, none)
          | ok _ ↦ elim (spawn p.child_fd (args p.child_fd) opened) [
            | err e ↦ (err e, closed, none)
            | ok child ↦ elim answers.waitpid [
              | err e ↦ (err e, closed, some child)
              | ok _ ↦ (ok p.parent_fd, set p.child_fd none opened, some child)
            ]
          ]
        ]
  ]

  unfoldable pub spawn_owner_process :
      Duration → Answers → Table → Result OwnedFd ℕ × Table × Option Process
  spawn_owner_process ttl answers t =
      spawn_process
        (λ fd.
          Arg.owner ∷ decimal fd ∷ ttl_secs ∷ decimal ttl.secs ∷ ttl_nsecs ∷ decimal ttl.nanos ∷ [])
        answers t

  unfoldable pub spawn_coordinator_process :
      Answers → Table → Result OwnedFd ℕ × Table × Option Process
  spawn_coordinator_process answers t =
      spawn_process (λ fd. Arg.coordinator ∷ decimal fd ∷ []) answers t

  -- `hydrate_forked_fd`
  unfoldable pub hydrate_forked_fd : OwnedFd → Table → Result (OwnedFd × Table) ℕ
  unfolding fcntl_setfd
  hydrate_forked_fd fd t = elim (fcntl_setfd fd true t) [ err e ↦ err e | ok t' ↦ ok (fd, t') ]

-- `Duration::new`; `none` is the panic when the seconds overflow.
unfoldable pub duration_new : ℕ → ℕ → Option Duration
duration_new secs nsecs =
    let whole = secs + nsecs / 10 ^ 9 in
    if ltb whole (2 ^ 64) then some (record { secs = whole; nanos = nsecs % 10 ^ 9 }) else none

-- How `main` begins: it stops before it serves, or it runs the loop of a mode on a descriptor.
pub data Serving : Type 0 where
  refused : Serving
  panicked : Serving
  spawning : (fd : OwnedFd) → Serving
  owning : (fd : OwnedFd) (ttl : Duration) → Serving

module _ (ebadf : ℕ) (clap : Clap) where
  unfoldable pub run_mode : OperationMode → Table → Serving × Table
  unfolding hydrate_forked_fd duration_new
  run_mode (OperationMode.coordinator fd) t = elim (hydrate_forked_fd ebadf fd t) [
    | err _ ↦ (refused, t)
    | ok (fd', t') ↦ (spawning fd', t')
  ]
  run_mode (OperationMode.owner fd secs nsecs) t = elim (hydrate_forked_fd ebadf fd t) [
    | err _ ↦ (refused, t)
    | ok (fd', t') ↦ elim (duration_new secs nsecs) [
      | none ↦ (panicked, t')
      | some ttl ↦ (owning fd' ttl, t')
    ]
  ]

  -- `main`, given what `sigaction` answers.
  unfoldable pub main : Result (Unit {0}) ℕ → Process → Serving × Table
  unfolding run_mode
  main sigaction p = elim (clap.parse p.args) [
    | err _ ↦ (refused, p.table)
    | ok mode ↦ elim sigaction [ err _ ↦ (refused, p.table) | ok _ ↦ run_mode mode p.table ]
  ]
