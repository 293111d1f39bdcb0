-- ===== src/Daemon/Threads/Work.antt =====
-- The work that the threads of an owner process of src/owner.rs have before them, and the tasks that
-- do not have to wait for another.
use ulockmgr.Prelude.{
  ℕ, ◌+◌, ◌<◌, ◌≡◌, ◌⊎◌, refl, ap, inl, inr, Bool, true, false, Bool-cases, arith, List, [], ◌∷◌,
  ◌++◌, if◌then◌else◌,
}
use ulockmgr.Daemon.System.{
  Main, idle, using, spawning, Task, unregistering, stopping, draining, waiting, refused, locking,
  untracking, System, Step,
}
use ulockmgr.Daemon.Invariant.{tasks_hold, task_holds}
use ulockmgr.Daemon.Threads.Defs.{tally, guarded, ending}
use ulockmgr.Daemon.Threads.Weaken.{tally-middle}

abbrev pub main_work : Main → ℕ
main_work idle = 0
main_work (using _) = 1
main_work (spawning _) = 2

-- The steps a task still has to take.
abbrev pub task_work : Task → ℕ
task_work (unregistering _) = 5
task_work (stopping _) = 4
task_work (draining _) = 3
task_work (waiting _) = 2
task_work (refused _) = 1
task_work (locking _ _) = 2
task_work (untracking _ _) = 1

abbrev pub work : System → ℕ
work s = main_work s.main + tally task_work s.tasks

-- The steps that finish something that was begun: the command loop takes no new command and spawns
-- no thread.
pub record Finishes (s t : System) : Type 0 where
  pub step : Step s t
  pub less : work t < work s

pub data Leads : System → System → Type 0 where
  done : {s : System} → Leads s s
  onward : {s t u : System} → Finishes s t → Leads t u → Leads s u

-- The tasks whose next step does not wait for another thread.
unfoldable pub free : Task → Bool
free (draining _) = false
free (waiting _) = false
free (unregistering _) = true
free (stopping _) = true
free (refused _) = true
free (locking _ _) = true
free (untracking _ _) = true

unfoldable pub bound : List Task → Bool
bound [] = true
bound (t ∷ ts) = if free t then false else bound ts

-- A task that need not wait, where there is one.
pub record Free (tasks : List Task) : Type 0 where
  pub task : Task
  pub before : List Task
  pub after : List Task
  pub split : tasks ≡ before ++ task ∷ after
  pub is_free : free task ≡ true

pub find-Free : (tasks : List Task) → Free tasks ⊎ (bound tasks ≡ true)
unfolding bound
find-Free [] = inr refl
find-Free (t ∷ ts) = elim (Bool-cases (free t)) [
  | inl e ↦ inl (record { task = t; before = []; after = ts; split = refl; is_free = e })
  | inr e ↦ elim (find-Free ts) [
    | inl f ↦ inl (record {
      task = f.task;
      before = t ∷ f.before;
      after = f.after;
      split = ap (λ xs. t ∷ xs) f.split;
      is_free = f.is_free;
    })
    | inr all ↦ inr (ground arith)
  ]
]

-- Where every task has to wait there is no lock thread, and the files are held by unregistrations.
bound_one :
    (a u : ℕ) (t : Task) → free t ≡ false → (guarded a u t ≡ 0) × (task_holds a t ≡ ending a t)
unfolding free
bound_one a u (draining b) e = (refl, refl)
bound_one a u (waiting b) e = (refl, refl)
bound_one a u (unregistering _) e = absurd (ground arith)
bound_one a u (stopping _) e = absurd (ground arith)
bound_one a u (refused _) e = absurd (ground arith)
bound_one a u (locking _ _) e = absurd (ground arith)
bound_one a u (untracking _ _) e = absurd (ground arith)

pub bound_tasks :
    (a u : ℕ) (ts : List Task)
    → bound ts ≡ true
    → (tally (guarded a u) ts ≡ 0) × (tasks_hold a ts ≡ tally (ending a) ts)
unfolding bound tally tasks_hold
bound_tasks a u [] e = (refl, refl)
bound_tasks a u (t ∷ ts) e = elim (Bool-cases (free t)) [
  | inl is_free ↦ absurd (ground arith)
  | inr not_free ↦
      let (guards, holds) = bound_one a u t not_free in
      let (guards', holds') = bound_tasks a u ts (ground arith) in
      (omega (arith, guards, guards'), omega (arith, holds, holds'))
]

-- The work that is left when a task ends, or goes on as another.
module _ (s : System) (t : Task) (ts us : List Task) (e : s.tasks ≡ ts ++ t ∷ us) where
  pub task_ends : main_work s.main + tally task_work (ts ++ us) + task_work t ≡ work s
  task_ends = rw e (omega (arith, tally-middle task_work t ts us))

  pub task_turns :
      (t' : Task)
      → main_work s.main + tally task_work (ts ++ t' ∷ us) + task_work t ≡ work s + task_work t'
  task_turns t' = omega (arith, task_ends, tally-middle task_work t' ts us)
