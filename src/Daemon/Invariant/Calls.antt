-- ===== src/Daemon/Invariant/Calls.antt =====
-- The other calls of src/owner.rs keep the heap well formed: the start of an unregistration, the
-- interrupt handlers, and the exit.
use ulockmgr.Prelude.{
  ℕ, ◌+◌, ◌<◌, ◌≡◌, refl, some, inl, inr, arith, List, [], ◌∷◌, ◌++◌, length, Option-cases,
  Bool-cases, ◌==◌,
}
use ulockmgr.Prelude.Assoc.{Assoc, get, remove, remove-Distinct}
use ulockmgr.IoError.{ok}
use ulockmgr.Messages.RemoveInterrupt.{RemoveInterrupt}
use ulockmgr.Messages.Unregister.{Unregister}
use ulockmgr.Daemon.State.{FdData, DaemonOwnerInner, InterruptibleHandle, try_exit}
use ulockmgr.Daemon.Handlers.{unregister_remove, handle_interrupt_add, handle_interrupt_remove}
use ulockmgr.Daemon.System.{Task}
use ulockmgr.Daemon.Invariant.Defs.{strong_at, one_if, mapped, task_holds, tasks_hold, IsHeap}
use ulockmgr.Daemon.Invariant.Files.{IsHeap-same, mapped-remove}

remove_entry-IsHeap :
    (id : ℕ) (d : DaemonOwnerInner)
    → IsHeap d
    → IsHeap (record d { descriptors = remove id d.descriptors })
remove_entry-IsHeap id d v = record {
  distinct = v.distinct;
  fresh = v.fresh;
  positive = v.positive;
  guarded = v.guarded;
  closed = v.closed;
  ids_distinct = remove-Distinct id d.descriptors v.ids_distinct;
  id_fits = v.id_fits;
}

pub unregister_remove-IsHeap :
    (m : Unregister) (d : DaemonOwnerInner) → IsHeap d → IsHeap (unregister_remove d m).1
unfolding unregister_remove
unregister_remove-IsHeap m d v = elim (Option-cases (get m.id d.descriptors)) [
  | inl e ↦ rw (e, unregister_remove) v
  | inr (a, e) ↦ rw (e, unregister_remove) (remove_entry-IsHeap m.id d v)
]

-- The map gives the `Arc` up that the unregistration takes.
pub mapped-unregister_remove :
    (m : Unregister) (a b : ℕ) (d : DaemonOwnerInner)
    → IsHeap d
    → (unregister_remove d m).0 ≡ ok a
    → (mapped b (unregister_remove d m).1.descriptors + one_if a b ≡ mapped b d.descriptors)
      × ((unregister_remove d m).1.heap ≡ d.heap)
unfolding unregister_remove
mapped-unregister_remove m a b d v h =
    ground (arith, mapped-remove m.id a b d.descriptors v.ids_distinct)

pub handle_interrupt_remove-IsHeap :
    (m : RemoveInterrupt) (d : DaemonOwnerInner) → IsHeap d → IsHeap (handle_interrupt_remove d m).1
unfolding handle_interrupt_remove
handle_interrupt_remove-IsHeap m d v = elim (Option-cases (get m.id d.interrupts)) [
  | inl e ↦ rw (e, handle_interrupt_remove) v
  | inr (h, e) ↦
      rw (e, handle_interrupt_remove) (IsHeap-same {d = d} refl refl refl refl refl refl v)
]

pub handle_interrupt_remove-keeps :
    (m : RemoveInterrupt) (d : DaemonOwnerInner)
    → ((handle_interrupt_remove d m).1.heap ≡ d.heap)
      × ((handle_interrupt_remove d m).1.descriptors ≡ d.descriptors)
unfolding handle_interrupt_remove
handle_interrupt_remove-keeps m d = ground arith

-- What a success of `handle_interrupt_add` leaves.
pub handle_interrupt_add-keeps :
    (h : InterruptibleHandle) (id : ℕ) (d d' : DaemonOwnerInner)
    → handle_interrupt_add d h ≡ some (id, d')
    → (d'.heap ≡ d.heap)
      × (d'.readers ≡ d.readers)
      × (d'.next_address ≡ d.next_address)
      × (d'.exit_lock ≡ d.exit_lock)
      × (d'.descriptors ≡ d.descriptors)
      × (d'.next_id ≡ d.next_id)
unfolding handle_interrupt_add
handle_interrupt_add-keeps h id d d' e = ground arith

length-eq-zero {ℓ} : {A : Type ℓ} (xs : List A) → length xs ≡ 0 → xs ≡ []
length-eq-zero [] e = refl
length-eq-zero (x ∷ xs) e = absurd (omega arith)

-- The owner exits only when no registered file is left.
pub try_exit-IsHeap :
    (d : DaemonOwnerInner) → IsHeap d → (try_exit d).0 ≡ ok tt → IsHeap (try_exit d).1
unfolding try_exit
try_exit-IsHeap d v h = elim (Bool-cases (d.readers == 0)) [
  | inl none_left ↦
      rw (none_left, try_exit)
        (record {
          distinct = v.distinct;
          fresh = v.fresh;
          positive = v.positive;
          guarded = v.guarded;
          closed = λ _. length-eq-zero d.heap (ground (arith, v.guarded));
          ids_distinct = v.ids_distinct;
          id_fits = v.id_fits;
        })
  | inr busy ↦ absurd (ground arith)
]

pub try_exit-keeps :
    (d : DaemonOwnerInner)
    → ((try_exit d).1.heap ≡ d.heap) × ((try_exit d).1.descriptors ≡ d.descriptors)
unfolding try_exit
try_exit-keeps d = ground arith

pub tasks_hold-append :
    (a : ℕ) (ts us : List Task) → tasks_hold a (ts ++ us) ≡ tasks_hold a ts + tasks_hold a us
unfolding tasks_hold
tasks_hold-append a [] us = omega arith
tasks_hold-append a (t ∷ ts) us = omega (arith, tasks_hold-append a ts us)

-- The tasks without one of them, or with another in its place.
pub tasks_hold-middle :
    (a : ℕ) (t : Task) (ts us : List Task)
    → tasks_hold a (ts ++ t ∷ us) ≡ tasks_hold a (ts ++ us) + task_holds a t
unfolding tasks_hold
tasks_hold-middle a t ts us =
    omega (arith, tasks_hold-append a ts us, tasks_hold-append a ts (t ∷ us))

pub strong-nil : (a : ℕ) (m : Assoc FdData) → m ≡ [] → strong_at a m ≡ 0
unfolding get
strong-nil a m e = rw e refl

pub strong-length : (a : ℕ) (m : Assoc FdData) → 0 < strong_at a m → 0 < length m
unfolding get
strong-length a [] h = absurd (omega arith)
strong-length a (x ∷ m) h = omega arith
