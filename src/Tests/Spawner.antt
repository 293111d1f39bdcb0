-- ===== src/Tests/Spawner.antt =====
-- A coordinator that starts two owners.
use ulockmgr.Prelude.{◌≡◌, refl, some, List, [], ◌∷◌, ◌++◌, map}
use ulockmgr.IoError.{custom, other, ok, err}
use ulockmgr.Spawner.{Round, Job, requested, answered, Course, serve, run, run_serves}
use ulockmgr.Tests.Platform.{errnos}

abbrev two_jobs : List Job
two_jobs =
    record { ttl = record { secs = 5; nanos = 0 }; reply_oneshot = 20; parent_fd = 30 }
    ∷ record { ttl = record { secs = 0; nanos = 0 }; reply_oneshot = 21; parent_fd = 31 }
    ∷ []

abbrev no_owner : Round
no_owner = record {
  request = ok (record { ttl = record { secs = 5; nanos = 0 } }, 22);
  spawned = err (custom other);
}

-- The third owner cannot be started.
run_serves_example :
    Course errnos
      (map requested two_jobs ++ no_owner ∷ [])
      (run errnos (ok tt) (map requested two_jobs ++ no_owner ∷ []))
    × (run errnos (err (custom other)) (map requested two_jobs ++ no_owner ∷ [])
        ≡ (some (err (custom other)), []))
run_serves_example = run_serves errnos (map requested two_jobs ++ no_owner ∷ []) (custom other)

run_spawn_fails :
    run errnos (ok tt) (map requested two_jobs ++ no_owner ∷ [])
    ≡ (some (err (custom other)), map answered two_jobs)
unfolding run
run_spawn_fails = unfold serve in refl
