-- ===== src/Daemon/Threads/Rest.antt =====
-- Where the owner process of src/owner.rs comes to when no command arrives.
use ulockmgr.Prelude.{
  ℕ, zero, suc, ◌≤◌, ◌<◌, ◌≡◌, refl, ap, inl, inr, some, arith, [], ◌∷◌, length, ◌==◌,
  if◌then◌else◌,
}
use ulockmgr.Prelude.Assoc.{Assoc, get}
use ulockmgr.IoError.{custom, resource_busy, ok, err}
use ulockmgr.Daemon.State.{FdData, try_exit}
use ulockmgr.Daemon.System.{idle, System, Reach, next}
use ulockmgr.Daemon.Invariant.{mapped, strong_at, main_holds, tasks_hold, strong-length}
use ulockmgr.Daemon.Safety.{Reach-Inv, strong-eq-holders}
use ulockmgr.Daemon.Threads.Work.{work, Leads, done, onward}
use ulockmgr.Daemon.Threads.Progress.{no_deadlock}

-- Nothing is left to do.
record AtRest (s : System) : Type 0 where
  reached : Reach s
  main_idle : s.main ≡ idle
  no_tasks : s.tasks ≡ []

rests : {s : System} (n : ℕ) → work s ≤ n → Reach s → (t : System) × Leads s t × AtRest t
rests {s} zero le r = elim (no_deadlock r) [
  | inl (at_idle, none_left) ↦
      (s, done, record { reached = r; main_idle = at_idle; no_tasks = none_left })
  | inr (t, f) ↦ absurd (omega (arith, f.less))
]
rests {s} (suc n) le r = elim (no_deadlock r) [
  | inl (at_idle, none_left) ↦
      (s, done, record { reached = r; main_idle = at_idle; no_tasks = none_left })
  | inr (t, f) ↦
      let (u, path, at_rest) = rests n (omega (arith, f.less)) (next r f.step) in
      (u, onward f path, at_rest)
]

-- At rest only the map holds files.
rest-mapped :
    {s : System} → AtRest s → (a : ℕ) → strong_at a s.inner.heap ≡ mapped a s.inner.descriptors
unfolding tasks_hold
rest-mapped {s} v a = ground (
  arith,
  strong-eq-holders v.reached a,
  ap (main_holds a) v.main_idle,
  ap (tasks_hold a) v.no_tasks,
)

heap-nothing :
    (m : Assoc FdData)
    → ((a : ℕ) (x : FdData) → get a m ≡ some x → 0 < x.strong)
    → ((a : ℕ) → strong_at a m ≡ 0)
    → m ≡ []
unfolding get
heap-nothing [] positive h = refl
heap-nothing ((a, x) ∷ m) positive h = absurd (ground (arith, positive a x, h a))

-- An owner at rest exits if no file is registered, and otherwise stays.
rest-exits :
    {s : System}
    → AtRest s
    → (try_exit s.inner).0
      ≡ (if length s.inner.descriptors == 0 then ok tt else err (custom resource_busy))
unfolding mapped try_exit
rest-exits {s} v = by_map s.inner.descriptors refl
  where
    by_map :
        (ids : Assoc ℕ)
        → s.inner.descriptors ≡ ids
        → (try_exit s.inner).0
          ≡ (if length s.inner.descriptors == 0 then ok tt else err (custom resource_busy))
    by_map [] e =
        let no_files : s.inner.heap ≡ [] =
          heap-nothing s.inner.heap (Reach-Inv v.reached).heap.positive
            (λ a. ground (arith, rest-mapped v a, ap (mapped a) e)) in
        ground (arith, (Reach-Inv v.reached).heap.guarded, ap length no_files, ap length e)
    by_map ((id, a) ∷ ids) e =
        let held : 0 < strong_at a s.inner.heap =
          ground (arith, rest-mapped v a, ap (mapped a) e) in
        ground (
          arith,
          (Reach-Inv v.reached).heap.guarded,
          strong-length a s.inner.heap held,
          ap length e,
        )

-- From every reachable state steps that only finish what was begun lead to a state in which the
-- command loop is idle, no thread is left, exactly the files in the descriptor map are open, and an
-- attempt to exit succeeds if that map is empty and otherwise fails.
pub comes_to_rest :
    {s : System}
    → Reach s
    → (t : System) × Leads s t
      × (t.main ≡ idle)
      × (t.tasks ≡ [])
      × ((a : ℕ) → strong_at a t.inner.heap ≡ mapped a t.inner.descriptors)
      × ((try_exit t.inner).0
          ≡ (if length t.inner.descriptors == 0 then ok tt else err (custom resource_busy)))
comes_to_rest {s} r =
    let (t, path, v) = rests (work s) (omega arith) r in
    (t, path, v.main_idle, v.no_tasks, rest-mapped v, rest-exits v)
