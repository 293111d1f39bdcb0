-- ===== src/Daemon/Threads/Progress.antt =====
-- What the threads of an owner process of src/owner.rs wait for.
use ulockmgr.Prelude.{
  ℕ, ◌<◌, ◌≡◌, ◌⊎◌, refl, ap, inl, inr, true, false, some, Option-cases, arith, List, [], ◌∷◌, ◌++◌,
}
use ulockmgr.Prelude.Assoc.{get}
use ulockmgr.IoError.{IoError, Result, ok, err}
use ulockmgr.Messages.Unregister.{Unregister}
use ulockmgr.Tracker.{TrackerData, contains}
use ulockmgr.Daemon.Handlers.{unregister_remove}
use ulockmgr.Daemon.System.{
  Main, idle, using, spawning, Task, unregistering, stopping, draining, waiting, refused, locking,
  untracking, System, Step, Reach,
}
use ulockmgr.Daemon.Invariant.{strong_at, holders, tasks_hold, tasks_hold-middle}
use ulockmgr.Daemon.Safety.{Reach-Inv, strong-eq-holders}
use ulockmgr.Daemon.Threads.Defs.{tally, guarded, ending, listed}
use ulockmgr.Daemon.Threads.Weaken.{tally-middle}
use ulockmgr.Daemon.Threads.Steps.{Reach-Tracked}
use ulockmgr.Daemon.Threads.Work.{
  main_work, Finishes, free, bound, find-Free, bound_tasks, task_ends, task_turns,
}

abbrev pub Advances : System → Type 0
Advances s = (t : System) × Finishes s t

-- A file that someone holds has a tracker, and so has one with a thread.
held_tracker :
    {s : System} (a : ℕ)
    → Reach s
    → 0 < holders a s
    → (g : TrackerData) × (get a s.inner.trackers ≡ some g)
held_tracker {s} a r held = (Reach-Tracked r).there a below
  where
    below : a < s.inner.next_address
    below = ground (arith, strong-eq-holders r a, (Reach-Inv r).heap.fresh a)

listed_tracker :
    (s : System) (a u : ℕ)
    → 0 < listed a u s.inner.trackers
    → (g : TrackerData) × (get a s.inner.trackers ≡ some g)
listed_tracker s a u h = elim (Option-cases (get a s.inner.trackers)) [
  | inl e ↦ absurd (ground arith)
  | inr found ↦ found
]

contains-nothing : (ts : List ℕ) → ((u : ℕ) → contains u ts ≡ false) → ts ≡ []
unfolding contains
contains-nothing [] h = refl
contains-nothing (t ∷ ts) h = absurd (ground (arith, h t))

unregistering-Advances :
    (s : System) (m : Unregister) (ts us : List Task)
    → s.tasks ≡ ts ++ unregistering m ∷ us
    → Advances s
unregistering-Advances s m ts us e = answer (unregister_remove s.inner m).0 refl
  where
    answer : (r : Result ℕ IoError) → (unregister_remove s.inner m).0 ≡ r → Advances s
    answer (err _) failed = (
      _,
      record {
        step = Step.misses m ts us e failed;
        less = omega (arith, task_ends s (unregistering m) ts us e);
      },
    )
    answer (ok a) removed = (
      _,
      record {
        step = Step.removes m a ts us e removed;
        less = omega (arith, task_turns s (unregistering m) ts us e (stopping a));
      },
    )

-- A task that need not wait goes on.
free-Advances :
    {s : System} (t : Task) (ts us : List Task)
    → Reach s
    → s.tasks ≡ ts ++ t ∷ us
    → free t ≡ true
    → Advances s
unfolding free
free-Advances {s} (unregistering m) ts us r e f = unregistering-Advances s m ts us e
free-Advances {s} (stopping a) ts us r e f =
    let held : 0 < tasks_hold a s.tasks =
      ground (arith, ap (tasks_hold a) e, tasks_hold-middle a (stopping a) ts us) in
    let (g, found) = held_tracker a r (omega (arith, held)) in
    (
      _,
      record {
        step = Step.forbids a g ts us e found;
        less = omega (arith, task_turns s (stopping a) ts us e (draining a));
      },
    )
free-Advances {s} (draining a) ts us r e f = absurd (ground arith)
free-Advances {s} (waiting a) ts us r e f = absurd (ground arith)
free-Advances {s} (refused a) ts us r e f = (
  _,
  record {
    step = Step.refused_ends a ts us e;
    less = omega (arith, task_ends s (refused a) ts us e);
  },
)
free-Advances {s} (locking a u) ts us r e f = (
  _,
  record {
    step = Step.lock_returns a u ts us e;
    less = omega (arith, task_turns s (locking a u) ts us e (untracking a u));
  },
)
free-Advances {s} (untracking a u) ts us r e f =
    let guards : 0 < tally (guarded a u) s.tasks =
      ground
        (arith, ap (tally (guarded a u)) e, tally-middle (guarded a u) (untracking a u) ts us) in
    let (g, found) = listed_tracker s a u (omega (arith, guards, (Reach-Tracked r).exact a u)) in
    (
      _,
      record {
        step = Step.untracks a u g ts us e found;
        less = omega (arith, task_ends s (untracking a u) ts us e);
      },
    )

-- Where every task waits, the first of them has nothing left to wait for.
bound-Advances :
    {s : System} (t : Task) (us : List Task)
    → Reach s
    → s.main ≡ idle
    → s.tasks ≡ t ∷ us
    → bound s.tasks ≡ true
    → free t ≡ false
    → Advances s
unfolding free
bound-Advances {s} (draining a) us r at_idle e all f =
    let held : 0 < tasks_hold a s.tasks =
      ground (arith, ap (tasks_hold a) e, tasks_hold-middle a (draining a) [] us) in
    let (g, found) = held_tracker a r (omega (arith, held)) in
    let no_threads : g.threads ≡ [] =
      contains-nothing g.threads
        (λ u. ground (arith, (Reach-Tracked r).exact a u, (bound_tasks a u s.tasks all).0)) in
    (
      _,
      record {
        step = Step.drained a g [] us e found no_threads;
        less = omega (arith, task_turns s (draining a) [] us e (waiting a));
      },
    )
bound-Advances {s} (waiting a) us r at_idle e all f =
    let held : 0 < tally (ending a) s.tasks =
      ground (arith, ap (tally (ending a)) e, tally-middle (ending a) (waiting a) [] us) in
    let counts : strong_at a s.inner.heap ≡ 1 =
      ground (
        arith,
        strong-eq-holders r a,
        (Reach-Tracked r).single a,
        (bound_tasks a 0 s.tasks all).1,
      ) in
    elim (Option-cases (get a s.inner.heap)) [
      | inl gone ↦ absurd (ground arith)
      | inr (x, found) ↦ (
        _,
        record {
          step = Step.unregistered a x [] us e found (ground arith);
          less = omega (arith, task_ends s (waiting a) [] us e);
        },
      )
    ]
bound-Advances (unregistering _) us r at_idle e all f = absurd (ground arith)
bound-Advances (stopping _) us r at_idle e all f = absurd (ground arith)
bound-Advances (refused _) us r at_idle e all f = absurd (ground arith)
bound-Advances (locking _ _) us r at_idle e all f = absurd (ground arith)
bound-Advances (untracking _ _) us r at_idle e all f = absurd (ground arith)

advances :
    {s : System}
    → Reach s
    → (m : Main) → s.main ≡ m
    → ((s.main ≡ idle) × (s.tasks ≡ [])) ⊎ Advances s
advances {s} r (spawning a) e =
    inr (_, record { step = Step.spawn_fails a e; less = omega (arith, ap main_work e) })
advances {s} r (using a) e =
    inr (_, record { step = Step.returns a e; less = omega (arith, ap main_work e) })
advances {s} r idle e = elim (find-Free s.tasks) [
  | inl f ↦ inr (free-Advances f.task f.before f.after r f.split f.is_free)
  | inr all ↦ first s.tasks refl all
]
  where
    first :
        (ts : List Task)
        → s.tasks ≡ ts
        → bound s.tasks ≡ true
        → ((s.main ≡ idle) × (s.tasks ≡ [])) ⊎ Advances s
    first [] at_rest all = inl (e, at_rest)
    first (t ∷ ts) split all =
        inr (bound-Advances t ts r e split all (unfold bound in ground (arith, ap bound split)))

-- In every reachable state either the command loop is idle and no thread is left, or there is a step
-- that finishes something that was begun.
pub no_deadlock : {s : System} → Reach s → ((s.main ≡ idle) × (s.tasks ≡ [])) ⊎ Advances s
no_deadlock {s} r = advances r s.main refl
