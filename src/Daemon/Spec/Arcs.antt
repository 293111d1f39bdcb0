-- ===== src/Daemon/Spec/Arcs.antt =====
-- What the moves of an `Arc` of src/owner.rs leave of the files that are named.
use ulockmgr.Prelude.{ℕ, ◌+◌, ◌-◌, ◌<◌, ◌≡◌, inl, inr, arith, Option-cases}
use ulockmgr.Prelude.Assoc.{get, get-put, get-remove}
use ulockmgr.Daemon.State.{DaemonOwnerInner, clone_arc, drop_arc}
use ulockmgr.Daemon.Invariant.{strong_at, one_if}
use ulockmgr.Daemon.Spec.{descriptor_at}

pub descriptor-clone_arc :
    (a b : ℕ) (d : DaemonOwnerInner) → descriptor_at b (clone_arc a d).heap ≡ descriptor_at b d.heap
unfolding clone_arc descriptor_at
descriptor-clone_arc a b d = elim (Option-cases (get a d.heap)) [
  | inl e ↦ ground arith
  | inr (x, e) ↦ ground (arith, get-put a b (record x { strong = x.strong + 1 }) d.heap)
]

-- A drop leaves a file that has another owner.
pub descriptor-drop_arc :
    (a b : ℕ) (d : DaemonOwnerInner)
    → one_if a b < strong_at b d.heap
    → descriptor_at b (drop_arc a d).heap ≡ descriptor_at b d.heap
unfolding drop_arc descriptor_at
descriptor-drop_arc a b d p = elim (Option-cases (get a d.heap)) [
  | inl e ↦ ground arith
  | inr (x, e) ↦
      ground (arith, get-put a b (record x { strong = x.strong - 1 }) d.heap, get-remove a b d.heap)
]

pub exit_lock-arcs :
    (a : ℕ) (d : DaemonOwnerInner)
    → ((clone_arc a d).exit_lock ≡ d.exit_lock) × ((drop_arc a d).exit_lock ≡ d.exit_lock)
unfolding clone_arc drop_arc
exit_lock-arcs a d = (ground arith, ground arith)
