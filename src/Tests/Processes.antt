-- ===== src/Tests/Processes.antt =====
-- An owner process that is started by a coordinator with a socket of its own at 0.
use ulockmgr.Prelude.{ℕ, ◌≡◌, refl, true, none, some, List, [], ◌∷◌, arith}
use ulockmgr.IoError.{Result, ok, err}
use ulockmgr.Messages.RequestSpawnOwner.{Duration}
use ulockmgr.Processes.{
  Table, set, Arg, decimal, ttl_secs, ttl_nsecs, Process, OperationMode, Clap, Pair, owning,
  spawn_owner_process, main,
}
use ulockmgr.Processes.Start.{granted, kept, inherited, IsNew, spawn_owner_process-serves}

abbrev pub parse : List Arg → Result OperationMode (Unit {0})
parse (Arg.coordinator ∷ decimal fd ∷ []) = ok (OperationMode.coordinator fd)
parse (Arg.owner ∷ decimal fd ∷ ttl_secs ∷ decimal secs ∷ ttl_nsecs ∷ decimal nsecs ∷ []) =
    ok (OperationMode.owner fd secs nsecs)
parse _ = err tt

abbrev pub clap : Clap
clap = record {
  parse = parse;
  reads_coordinator = λ fd fits. refl;
  reads_owner = λ fd secs nsecs fits secs_fit nsecs_fit. refl;
}

abbrev pub nothing_open : Table
nothing_open j = none

abbrev pub coordinator_table : Table
coordinator_table = set 0 (some (record { file = 40; cloexec = true })) nothing_open

abbrev pub sockets : Pair
sockets = record { parent_fd = 5; child_fd = 6; parent_file = 41; child_file = 42 }

abbrev pub five_seconds : Duration
five_seconds = record { secs = 5; nanos = 0 }

pub sockets-IsNew : IsNew 9 clap sockets coordinator_table
sockets-IsNew = (refl, refl, λ e. omega (arith, e))

spawn_owner_process-serves_example :
    (child : Process) × (table : Table) × (table' : Table) × (spawn_owner_process 9 five_seconds
        (granted 9 clap sockets coordinator_table)
        coordinator_table
      ≡ (ok 5, table, some child))
    × (main 9 clap (ok tt) child ≡ (owning 6 five_seconds, table'))
    × ((j : ℕ)
        → (table j ≡ kept sockets coordinator_table j)
          × (table' j ≡ inherited sockets coordinator_table j))
spawn_owner_process-serves_example =
    spawn_owner_process-serves 9 clap sockets coordinator_table five_seconds sockets-IsNew
      (omega arith) (omega arith) (omega arith)
