-- ===== src/Daemon/Threads/Counts.antt =====
-- Counts over the tasks of an owner process of src/owner.rs, and a write to a tracker.
use ulockmgr.Prelude.{ℕ, ◌+◌, ◌≤◌, ◌≡◌, some, arith, List, [], ◌∷◌, ◌++◌, ◌==◌, if◌then◌else◌}
use ulockmgr.Prelude.Assoc.{Assoc, get, put, get-put}
use ulockmgr.Daemon.System.{Task, draining}
use ulockmgr.Daemon.Invariant.{tasks_hold, task_holds}
use ulockmgr.Daemon.Threads.Defs.{tally, ending, closing, emptied}
use ulockmgr.Daemon.Threads.Weaken.{tally-middle}

pub ending-le-hold : (a : ℕ) (ts : List Task) → tally (ending a) ts ≤ tasks_hold a ts
unfolding tally tasks_hold
ending-le-hold a [] = omega arith
ending-le-hold a (t ∷ ts) =
    let le : ending a t ≤ task_holds a t = one a t in omega (arith, ending-le-hold a ts, le)
  where
    one : (a : ℕ) (t : Task) → ending a t ≤ task_holds a t
    one a (Task.unregistering _) = omega arith
    one a (Task.refused _) = omega arith
    one a (Task.locking _ _) = omega arith
    one a _ = omega arith

pub emptied-le-closing : (a : ℕ) (ts : List Task) → tally (emptied a) ts ≤ tally (closing a) ts
unfolding tally
emptied-le-closing a [] = omega arith
emptied-le-closing a (t ∷ ts) =
    let le : emptied a t ≤ closing a t = one a t in omega (arith, emptied-le-closing a ts, le)
  where
    one : (a : ℕ) (t : Task) → emptied a t ≤ closing a t
    one a (draining _) = omega arith
    one a _ = omega arith

-- A task goes on as another.
pub tally-swap :
    (t t' : Task) (ts us tasks : List Task)
    → tasks ≡ ts ++ t ∷ us
    → (f : Task → ℕ) → tally f (ts ++ t' ∷ us) + f t ≡ tally f tasks + f t'
tally-swap t t' ts us tasks e f =
    rw e (omega (arith, tally-middle f t ts us, tally-middle f t' ts us))

-- A task ends.
pub tally-drop :
    (t : Task) (ts us tasks : List Task)
    → tasks ≡ ts ++ t ∷ us
    → (f : Task → ℕ) → tally f (ts ++ us) + f t ≡ tally f tasks
tally-drop t ts us tasks e f = rw e (omega (arith, tally-middle f t ts us))

-- A write at a key that is there.
pub get-put-some {ℓ} :
    {V : Type ℓ} (k : ℕ) (v : V) (m : Assoc V) {x : V}
    → get k m ≡ some x
    → (j : ℕ) → get j (put k v m) ≡ (if k == j then some v else get j m)
get-put-some k v m e j = get-put k j v m (λ h. cc)
