-- ===== src/Daemon/Invariant/Steps.antt =====
-- The counts of the holders of a file under every step of the owner process of src/owner.rs.
use ulockmgr.Prelude.{ℕ, ◌+◌, ◌<◌, ◌≡◌, refl, some, arith, List, [], ◌∷◌, ◌++◌}
use ulockmgr.Prelude.Assoc.{Assoc, get}
use ulockmgr.Daemon.State.{DaemonOwnerInner, clone_arc, drop_arc}
use ulockmgr.Daemon.System.{
  Task, unregistering, stopping, draining, waiting, refused, locking, untracking, System, Step,
  start_system,
}
use ulockmgr.Daemon.Invariant.Defs.{strong_at, one_if, mapped, task_holds, tasks_hold, holders, Inv}
use ulockmgr.Daemon.Invariant.Arcs.{
  clone_arc-IsHeap, drop_arc-IsHeap, strong-clone_arc, strong-drop_arc,
}
use ulockmgr.Daemon.Invariant.Files.{IsHeap-same, handle_fd_register-keeps}
use ulockmgr.Daemon.Invariant.Calls.{
  unregister_remove-IsHeap, mapped-unregister_remove, handle_interrupt_remove-IsHeap,
  handle_interrupt_remove-keeps, handle_interrupt_add-keeps, try_exit-IsHeap, try_exit-keeps,
  tasks_hold-middle,
}

-- The descriptor map is left alone by the moves of an `Arc`.
pub clone_arc-keeps : (a : ℕ) (d : DaemonOwnerInner) → (clone_arc a d).descriptors ≡ d.descriptors
unfolding clone_arc
clone_arc-keeps a d = ground arith

pub drop_arc-keeps : (a : ℕ) (d : DaemonOwnerInner) → (drop_arc a d).descriptors ≡ d.descriptors
unfolding drop_arc
drop_arc-keeps a d = ground arith

pub mapped-pos : (id a : ℕ) (m : Assoc ℕ) → get id m ≡ some a → 0 < mapped a m
unfolding get mapped
mapped-pos id a [] e = cc
mapped-pos id a ((j, b) ∷ m) e = ground (arith, mapped-pos id a m)

-- A clone by a holder, and a drop by a holder.
cloned :
    (a b : ℕ) (s : System)
    → Inv s
    → 0 < holders a s
    → strong_at b (clone_arc a s.inner).heap ≡ holders b s + one_if a b
cloned a b s v p =
    omega (arith, strong-clone_arc a b s.inner (omega (arith, v.counted a)), v.counted b)

dropped :
    (a b : ℕ) (s : System)
    → Inv s
    → 0 < holders a s
    → strong_at b (drop_arc a s.inner).heap + one_if a b ≡ holders b s
dropped a b s v p =
    omega (arith, strong-drop_arc a b s.inner (omega (arith, v.counted a)), v.counted b)

-- A task that holds an address, and the tasks with another in its place.
module _ (s : System) (t : Task) (ts us : List Task) (e : s.tasks ≡ ts ++ t ∷ us) where
  split : (a : ℕ) → tasks_hold a s.tasks ≡ tasks_hold a (ts ++ us) + task_holds a t
  split a = rw e (tasks_hold-middle a t ts us)

pub Inv-start : Inv start_system
unfolding mapped tasks_hold get
Inv-start = record {
  heap = record {
    distinct = tt;
    fresh = λ a le. refl;
    positive = λ a x e. cc;
    guarded = refl;
    closed = λ e. refl;
    ids_distinct = tt;
    id_fits = omega arith;
  };
  counted = λ a. refl;
}

pub Step-Inv : {s t : System} → Step s t → Inv s → Inv t
Step-Inv {s} (Step.registers ret errno action m {r} {d} at_idle done) v =
    let (h, balanced) = handle_fd_register-keeps ret errno action m r s.inner d v.heap done in
    record { heap = h; counted = λ b. omega (arith, balanced b, v.counted b) }
Step-Inv {s} (Step.removes_interrupt m at_idle) v =
    let (same, kept) = handle_interrupt_remove-keeps m s.inner in
    record {
      heap = handle_interrupt_remove-IsHeap m s.inner v.heap;
      counted = λ b. rw (same, kept) (v.counted b);
    }
Step-Inv {s} (Step.spawns_unregister m at_idle) v = record {
  heap = v.heap;
  counted = λ b. unfold tasks_hold in omega (arith, v.counted b);
}
Step-Inv {s} (Step.looks_up id a at_idle found) v = record {
  heap = clone_arc-IsHeap a s.inner v.heap;
  counted = λ b.
      let p = mapped-pos id a s.inner.descriptors found in
      ground (arith, cloned a b s v (omega arith), clone_arc-keeps a s.inner);
}
Step-Inv {s} (Step.clones a at_using) v = record {
  heap = clone_arc-IsHeap a s.inner v.heap;
  counted = λ b. ground (arith, cloned a b s v (ground arith), clone_arc-keeps a s.inner);
}
Step-Inv {s} (Step.spawn_fails a at_spawning) v = record {
  heap = drop_arc-IsHeap a s.inner v.heap;
  counted = λ b. ground (arith, dropped a b s v (ground arith), drop_arc-keeps a s.inner);
}
Step-Inv {s} (Step.spawn_refused a t g at_spawning tracker failed) v = record {
  heap = v.heap;
  counted = λ b. unfold tasks_hold in ground (arith, v.counted b);
}
Step-Inv {s} (Step.spawns a t g at_spawning tracker fresh tracked) v = record {
  heap = IsHeap-same {d = s.inner} refl refl refl refl refl refl v.heap;
  counted = λ b. unfold tasks_hold in ground (arith, v.counted b);
}
Step-Inv {s} (Step.returns a at_using) v = record {
  heap = drop_arc-IsHeap a s.inner v.heap;
  counted = λ b. ground (arith, dropped a b s v (ground arith), drop_arc-keeps a s.inner);
}
Step-Inv {s} (Step.misses m ts us at_start failed) v = record {
  heap = v.heap;
  counted = λ b. omega (arith, v.counted b, split s (unregistering m) ts us at_start b);
}
Step-Inv {s} (Step.removes m a ts us at_start removed) v = record {
  heap = unregister_remove-IsHeap m s.inner v.heap;
  counted = λ b.
      let (counts, same) = mapped-unregister_remove m a b s.inner v.heap removed in
      rw same (
        omega (
          arith,
          v.counted b,
          counts,
          split s (unregistering m) ts us at_start b,
          tasks_hold-middle b (stopping a) ts us,
        ));
}
Step-Inv {s} (Step.forbids a g ts us at_stopping tracker) v = record {
  heap = IsHeap-same {d = s.inner} refl refl refl refl refl refl v.heap;
  counted = λ b. omega (
    arith,
    v.counted b,
    split s (stopping a) ts us at_stopping b,
    tasks_hold-middle b (draining a) ts us,
  );
}
Step-Inv {s} (Step.drained a g ts us at_draining tracker empty) v = record {
  heap = v.heap;
  counted = λ b. omega (
    arith,
    v.counted b,
    split s (draining a) ts us at_draining b,
    tasks_hold-middle b (waiting a) ts us,
  );
}
Step-Inv {s} (Step.unregistered a x ts us at_waiting found last) v = record {
  heap = drop_arc-IsHeap a s.inner v.heap;
  counted = λ b.
      let e = split s (waiting a) ts us at_waiting in
      ground (arith, dropped a b s v (ground (arith, e a)), drop_arc-keeps a s.inner, e b);
}
Step-Inv {s} (Step.refused_ends a ts us at_refused) v = record {
  heap = drop_arc-IsHeap a s.inner v.heap;
  counted = λ b.
      let e = split s (refused a) ts us at_refused in
      ground (arith, dropped a b s v (ground (arith, e a)), drop_arc-keeps a s.inner, e b);
}
Step-Inv {s} (Step.adds_interrupt a t id h ts us {d} at_locking done) v =
    let (hp, r, n, x, m, i) = handle_interrupt_add-keeps h id s.inner d done in
    record { heap = IsHeap-same hp r n x m i v.heap; counted = λ b. rw (hp, m) (v.counted b) }
Step-Inv {s} (Step.lock_returns a t ts us at_locking) v = record {
  heap = drop_arc-IsHeap a s.inner v.heap;
  counted = λ b.
      let e = split s (locking a t) ts us at_locking in
      ground (
        arith,
        dropped a b s v (ground (arith, e a)),
        drop_arc-keeps a s.inner,
        e b,
        tasks_hold-middle b (untracking a t) ts us,
      );
}
Step-Inv {s} (Step.untracks a t g ts us at_untracking tracker) v = record {
  heap = IsHeap-same {d = s.inner} refl refl refl refl refl refl v.heap;
  counted = λ b. omega (arith, v.counted b, split s (untracking a t) ts us at_untracking b);
}
Step-Inv {s} (Step.exits done) v =
    let (same, kept) = try_exit-keeps s.inner in
    record {
      heap = try_exit-IsHeap s.inner v.heap done;
      counted = λ b. rw (same, kept) (v.counted b);
    }
