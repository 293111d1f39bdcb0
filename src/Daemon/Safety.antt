-- ===== src/Daemon/Safety.antt =====
-- What holds in every reachable state of an owner process: src/owner.rs.
use ulockmgr.Prelude.{ℕ, ◌+◌, ◌≡◌, ◌≢◌, refl, ap, true, none, some, arith, List, [], ◌∷◌, ◌++◌}
use ulockmgr.Prelude.Assoc.{Assoc, get, get-remove}
use ulockmgr.IoError.{custom, resource_busy, err}
use ulockmgr.Daemon.State.{FdData, try_exit, drop_inner, drop_arc}
use ulockmgr.Daemon.System.{Main, idle, Task, waiting, locking, System, Reach, here, next}
use ulockmgr.Daemon.Invariant.{
  strong_at, mapped, main_holds, tasks_hold, holders, Inv, Step-Inv, tasks_hold-middle, mapped-pos,
  Inv-start, strong-nil, strong-length,
}

pub Reach-Inv : {s : System} → Reach s → Inv s
Reach-Inv here = Inv-start
Reach-Inv (next r st) = Step-Inv st (Reach-Inv r)

-- In every reachable state an address has as many owners as its strong count says: the map, the
-- command loop and the threads together.
pub strong-eq-holders : {s : System} → Reach s → (a : ℕ) → strong_at a s.inner.heap ≡ holders a s
strong-eq-holders r = (Reach-Inv r).counted

nothing_mapped : (m : Assoc ℕ) → ((a : ℕ) → mapped a m ≡ 0) → m ≡ []
unfolding mapped
nothing_mapped [] h = refl
nothing_mapped ((k, a) ∷ m) h = absurd (ground (arith, h a))

nothing_held : (m : Main) → ((a : ℕ) → main_holds a m ≡ 0) → m ≡ idle
nothing_held idle h = refl
nothing_held (Main.using a) h = absurd (ground (arith, h a))
nothing_held (Main.spawning a) h = absurd (ground (arith, h a))

-- In every reachable state in which the owner has marked itself as exited, no file is registered, the command loop uses none,
-- and no thread holds one.
pub exited_unused :
    {s : System}
    → Reach s
    → s.inner.exit_lock ≡ true
    → (s.inner.descriptors ≡ []) × (s.main ≡ idle) × ((a : ℕ) → tasks_hold a s.tasks ≡ 0)
exited_unused {s} r h = (
  nothing_mapped s.inner.descriptors (λ a. omega (arith, unowned a)),
  nothing_held s.main (λ a. omega (arith, unowned a)),
  λ a. omega (arith, unowned a),
)
  where
    unowned : (a : ℕ) → holders a s ≡ 0
    unowned a =
        omega
          (arith, (Reach-Inv r).counted a, strong-nil a s.inner.heap ((Reach-Inv r).heap.closed h))

-- In every reachable state in which a file is registered, an attempt to exit fails and changes
-- nothing.
pub registered_stays :
    {s : System} (id a : ℕ)
    → Reach s
    → get id s.inner.descriptors ≡ some a
    → try_exit s.inner ≡ (err (custom resource_busy), s.inner)
unfolding try_exit
registered_stays {s} id a r e =
    let held = mapped-pos id a s.inner.descriptors e in
    let v = Reach-Inv r in
    ground (arith, strong-length a s.inner.heap (omega (arith, v.counted a, held)), v.heap.guarded)

-- The drop of the state then changes nothing either.
registered-drop_inner :
    {s : System} (id a : ℕ)
    → Reach s
    → get id s.inner.descriptors ≡ some a
    → drop_inner s.inner ≡ s.inner
unfolding drop_inner
registered-drop_inner id a r e = ap (λ p. p.1) (registered_stays id a r e)

-- In every reachable state, the descriptor that a lock thread works on is open.
pub locked_open :
    {s : System} (a t : ℕ) (ts us : List Task)
    → Reach s
    → s.tasks ≡ ts ++ locking a t ∷ us
    → get a s.inner.heap ≢ none
locked_open {s} a t ts us r e gone =
    ground
      (arith, (Reach-Inv r).counted a, ap (tasks_hold a) e, tasks_hold-middle a (locking a t) ts us)

-- When an unregistration ends, in any reachable state with its strong count at one, the file is not registered, the command loop does not use it, no
-- other thread holds it, and its descriptor is closed.
pub unregistered_alone :
    {s : System} (a : ℕ) (x : FdData) (ts us : List Task)
    → Reach s
    → s.tasks ≡ ts ++ waiting a ∷ us
    → get a s.inner.heap ≡ some x
    → x.strong ≡ 1
    → (mapped a s.inner.descriptors ≡ 0)
      × (main_holds a s.main ≡ 0)
      × (tasks_hold a (ts ++ us) ≡ 0)
      × (get a (drop_arc a s.inner).heap ≡ none)
unfolding drop_arc
unregistered_alone {s} a x ts us r e found last = (
  omega (arith, own, mine),
  omega (arith, own, mine),
  omega (arith, own, mine),
  ground (arith, get-remove a a s.inner.heap),
)
  where
    own : holders a s ≡ 1
    own = ground (arith, (Reach-Inv r).counted a)

    mine : tasks_hold a s.tasks ≡ tasks_hold a (ts ++ us) + 1
    mine = ground (arith, ap (tasks_hold a) e, tasks_hold-middle a (waiting a) ts us)
