-- ===== src/Daemon/Invariant/Arcs.antt =====
-- `Arc::clone`, `drop` and `Arc::new` of src/owner.rs keep the heap well formed, and change the
-- strong count of one address by one.
use ulockmgr.Prelude.{
  ℕ, ◌+◌, ◌-◌, ◌<◌, ◌≡◌, false, none, some, inl, inr, arith, ◌==◌, Option-cases, Bool-cases,
}
use ulockmgr.Prelude.Assoc.{
  get, put, remove, get-put, length-put, put-Distinct, get-remove, remove-Distinct, length-remove,
  get-insert, get-put-none, put-nil, remove-nil,
}
use ulockmgr.Daemon.State.{FdData, DaemonOwnerInner, clone_arc, drop_arc, new_arc}
use ulockmgr.Daemon.Invariant.Defs.{strong_at, one_if, IsHeap}

-- A write of a positive count keeps the heap.
put-IsHeap :
    (a : ℕ) (x y : FdData) (d : DaemonOwnerInner)
    → IsHeap d
    → get a d.heap ≡ some x
    → 0 < y.strong
    → IsHeap (record d { heap = put a y d.heap })
put-IsHeap a x y d v e p = record {
  distinct = put-Distinct a y d.heap v.distinct;
  fresh = λ b le. get-put-none a b y d.heap (v.fresh b le);
  positive = λ b z q. ground (arith, get-put a b y d.heap, v.positive b z);
  guarded = omega (arith, length-put a y d.heap, v.guarded);
  closed = λ h. put-nil a y d.heap (v.closed h);
  ids_distinct = v.ids_distinct;
  id_fits = v.id_fits;
}

remove-IsHeap :
    (a : ℕ) (x : FdData) (d : DaemonOwnerInner)
    → IsHeap d
    → get a d.heap ≡ some x
    → IsHeap (record d { heap = remove a d.heap; readers = d.readers - 1 })
remove-IsHeap a x d v e = record {
  distinct = remove-Distinct a d.heap v.distinct;
  fresh = λ b le. ground (arith, get-remove a b d.heap, v.fresh b le);
  positive = λ b z q. ground (arith, get-remove a b d.heap, v.positive b z);
  guarded = omega (arith, length-remove a d.heap v.distinct (λ q. cc), v.guarded);
  closed = λ h. remove-nil a d.heap (v.closed h);
  ids_distinct = v.ids_distinct;
  id_fits = v.id_fits;
}

pub clone_arc-IsHeap : (a : ℕ) (d : DaemonOwnerInner) → IsHeap d → IsHeap (clone_arc a d)
unfolding clone_arc
clone_arc-IsHeap a d v = elim (Option-cases (get a d.heap)) [
  | inl e ↦ rw (e, clone_arc) v
  | inr (x, e) ↦
      rw (e, clone_arc) (put-IsHeap a x (record x { strong = x.strong + 1 }) d v e (omega arith))
]

pub drop_arc-IsHeap : (a : ℕ) (d : DaemonOwnerInner) → IsHeap d → IsHeap (drop_arc a d)
unfolding drop_arc
drop_arc-IsHeap a d v = elim (Option-cases (get a d.heap)) [
  | inl e ↦ rw (e, drop_arc) v
  | inr (x, e) ↦ elim (Bool-cases (x.strong == 1)) [
    | inl last ↦ rw (e, drop_arc, last) (remove-IsHeap a x d v e)
    | inr more ↦
        rw (e, drop_arc, more)
          (put-IsHeap a x (record x { strong = x.strong - 1 }) d v e
            (ground (arith, v.positive a x e)))
  ]
]

pub strong-clone_arc :
    (a b : ℕ) (d : DaemonOwnerInner)
    → 0 < strong_at a d.heap
    → strong_at b (clone_arc a d).heap ≡ strong_at b d.heap + one_if a b
unfolding clone_arc
strong-clone_arc a b d p = elim (Option-cases (get a d.heap)) [
  | inl e ↦ ground arith
  | inr (x, e) ↦ ground (arith, get-put a b (record x { strong = x.strong + 1 }) d.heap)
]

pub strong-drop_arc :
    (a b : ℕ) (d : DaemonOwnerInner)
    → 0 < strong_at a d.heap
    → strong_at b (drop_arc a d).heap + one_if a b ≡ strong_at b d.heap
unfolding drop_arc
strong-drop_arc a b d p = elim (Option-cases (get a d.heap)) [
  | inl e ↦ ground arith
  | inr (x, e) ↦
      ground (arith, get-put a b (record x { strong = x.strong - 1 }) d.heap, get-remove a b d.heap)
]

-- A new file is held once, by whoever made it.
pub new_arc-IsHeap :
    (fd : ℕ) (d : DaemonOwnerInner)
    → IsHeap (record d { readers = d.readers - 1 })
    → d.exit_lock ≡ false
    → 0 < d.readers
    → IsHeap (new_arc fd d).1
unfolding new_arc
new_arc-IsHeap fd d v unlocked p = record {
  distinct = (v.fresh d.next_address (omega arith), v.distinct);
  fresh = λ b le. ground (
    arith,
    get-insert d.next_address b (record { descriptor = fd; strong = 1 }) d.heap,
    v.fresh b,
  );
  positive = λ b z q. ground (
    arith,
    get-insert d.next_address b (record { descriptor = fd; strong = 1 }) d.heap,
    v.positive b z,
  );
  guarded = omega (arith, v.guarded);
  closed = λ h. cc;
  ids_distinct = v.ids_distinct;
  id_fits = v.id_fits;
}

pub strong-new_arc :
    (fd b : ℕ) (d : DaemonOwnerInner)
    → get d.next_address d.heap ≡ none
    → strong_at b (new_arc fd d).1.heap ≡ strong_at b d.heap + one_if d.next_address b
unfolding new_arc
strong-new_arc fd b d e =
    ground (arith, get-insert d.next_address b (record { descriptor = fd; strong = 1 }) d.heap)
