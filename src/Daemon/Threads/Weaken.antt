-- ===== src/Daemon/Threads/Weaken.antt =====
-- Counts over the tasks, and the steps that leave the trackers alone.
use ulockmgr.Prelude.{ℕ, ◌+◌, ◌≤◌, ◌≡◌, refl, ◌∙◌, arith, List, [], ◌∷◌, ◌++◌}
use ulockmgr.Prelude.Assoc.{Assoc}
use ulockmgr.Tracker.{TrackerData}
use ulockmgr.Daemon.System.{Task}
use ulockmgr.Daemon.Threads.Defs.{tally, guarded, ending, closing, emptied, Tracked}

tally-append : (f : Task → ℕ) (ts us : List Task) → tally f (ts ++ us) ≡ tally f ts + tally f us
unfolding tally
tally-append f [] us = omega arith
tally-append f (t ∷ ts) us = omega (arith, tally-append f ts us)

-- The tasks without one of them, or with another in its place.
pub tally-middle :
    (f : Task → ℕ) (t : Task) (ts us : List Task)
    → tally f (ts ++ t ∷ us) ≡ tally f (ts ++ us) + f t
unfolding tally
tally-middle f t ts us = omega (arith, tally-append f ts us, tally-append f ts (t ∷ us))

-- How a step changes the tasks, where it leaves the trackers alone: the guarded threads stay, and no
-- unregistration begins or goes on.
pub record Weakens (tasks tasks' : List Task) : Type 0 where
  pub guards : (a u : ℕ) → tally (guarded a u) tasks' ≡ tally (guarded a u) tasks
  pub ends : (a : ℕ) → tally (ending a) tasks' ≤ tally (ending a) tasks
  pub closes : (a : ℕ) → tally (closing a) tasks' ≤ tally (closing a) tasks
  pub empties : (a : ℕ) → tally (emptied a) tasks' ≤ tally (emptied a) tasks

pub Weakens-refl : (ts : List Task) → Weakens ts ts
Weakens-refl ts = record {
  guards = λ a u. refl;
  ends = λ a. omega arith;
  closes = λ a. omega arith;
  empties = λ a. omega arith;
}

pub Tracked-weaken :
    {n : ℕ} {m : Assoc TrackerData} {ids : Assoc ℕ} {tasks tasks' : List Task}
    → Weakens tasks tasks'
    → Tracked n m ids tasks
    → Tracked n m ids tasks'
Tracked-weaken w v = record {
  fresh = v.fresh;
  there = v.there;
  exact = λ a u. w.guards a u ∙ v.exact a u;
  single = λ a. omega (arith, w.ends a, v.single a);
  closed = λ a h. v.closed a (omega (arith, w.closes a));
  empty = λ a u h. v.empty a u (omega (arith, w.empties a));
}

-- A task that counts for nothing is added.
pub Weakens-add :
    (t : Task) (ts : List Task)
    → ((a u : ℕ) → guarded a u t ≡ 0)
    → ((a : ℕ) → ending a t ≡ 0)
    → ((a : ℕ) → closing a t ≡ 0)
    → ((a : ℕ) → emptied a t ≡ 0)
    → Weakens ts (t ∷ ts)
unfolding tally
Weakens-add t ts g e c m = record {
  guards = λ a u. omega (arith, g a u);
  ends = λ a. omega (arith, e a);
  closes = λ a. omega (arith, c a);
  empties = λ a. omega (arith, m a);
}

-- A task that is not guarded ends.
pub Weakens-drop :
    (t : Task) (ts us tasks : List Task)
    → tasks ≡ ts ++ t ∷ us
    → ((a u : ℕ) → guarded a u t ≡ 0)
    → Weakens tasks (ts ++ us)
Weakens-drop t ts us tasks e g = rw e (record {
  guards = λ a u. omega (arith, tally-middle (guarded a u) t ts us, g a u);
  ends = λ a. omega (arith, tally-middle (ending a) t ts us);
  closes = λ a. omega (arith, tally-middle (closing a) t ts us);
  empties = λ a. omega (arith, tally-middle (emptied a) t ts us);
})

-- A task goes on as another.
pub Weakens-turn :
    (t t' : Task) (ts us tasks : List Task)
    → tasks ≡ ts ++ t ∷ us
    → ((a u : ℕ) → guarded a u t' ≡ guarded a u t)
    → ((a : ℕ) → ending a t' ≤ ending a t)
    → ((a : ℕ) → closing a t' ≤ closing a t)
    → ((a : ℕ) → emptied a t' ≤ emptied a t)
    → Weakens tasks (ts ++ t' ∷ us)
Weakens-turn t t' ts us tasks p g e c m = rw p (record {
  guards = λ a u.
      omega (arith, tally-middle (guarded a u) t ts us, tally-middle (guarded a u) t' ts us, g a u);
  ends = λ a. omega (arith, tally-middle (ending a) t ts us, tally-middle (ending a) t' ts us, e a);
  closes =
      λ a. omega (arith, tally-middle (closing a) t ts us, tally-middle (closing a) t' ts us, c a);
  empties =
      λ a. omega (arith, tally-middle (emptied a) t ts us, tally-middle (emptied a) t' ts us, m a);
})
