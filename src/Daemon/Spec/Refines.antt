-- ===== src/Daemon/Spec/Refines.antt =====
-- The threads of an owner process of src/owner.rs against what its clients see.
use std.Path.{fun_ext}
use ulockmgr.Prelude.{
  ℕ, ◌+◌, ◌≤◌, ◌<◌, ◌≡◌, ◌↔◌, refl, true, false, none, some, inl, inr, arith, List, ◌∷◌, ◌++◌,
  Option-cases, ◌==◌,
}
use ulockmgr.Prelude.Assoc.{get}
use ulockmgr.IoError.{ok}
use ulockmgr.Daemon.State.{DaemonOwnerInner, clone_arc, drop_arc, new_arc, try_exit}
use ulockmgr.Daemon.Handlers.{insert_descriptor, unregister_remove, handle_interrupt_remove}
use ulockmgr.Messages.Unregister.{Unregister}
use ulockmgr.Daemon.System.{System, Step, Task, waiting, refused, locking, Reach, next}
use ulockmgr.Daemon.Invariant.{
  one_if, mapped, main_holds, task_holds, tasks_hold, Inv, strong-length, mapped-pos,
  tasks_hold-middle, clone_arc-keeps, drop_arc-keeps, handle_interrupt_remove-keeps,
  handle_interrupt_add-keeps, handle_fd_register-cases,
}
use ulockmgr.Daemon.Safety.{Reach-Inv}
use ulockmgr.Daemon.Spec.{
  name_file, Change, stays, enters, leaves, exits, descriptor_at, file_of, named,
}
use ulockmgr.Daemon.Spec.Arcs.{descriptor-clone_arc, descriptor-drop_arc, exit_lock-arcs}
use ulockmgr.Daemon.Spec.Files.{
  file_of-same, file_open, entered_file, unregistered_file, opened, insert_descriptor-exit_lock,
  known,
}

-- The files that are named are all that counts.
same_files :
    (d d' : DaemonOwnerInner)
    → d'.descriptors ≡ d.descriptors
    → d'.exit_lock ≡ d.exit_lock
    → ((a : ℕ) → 0 < mapped a d.descriptors → descriptor_at a d'.heap ≡ descriptor_at a d.heap)
    → Change (named d) (named d')
same_files d d' m l h =
    let files : (λ id. file_of id d') ≡ (λ id. file_of id d) =
      fun_ext λ id. file_of-same id d d' m h in
    rw (files, l) stays

-- A holder other than the map clones its `Arc`, or drops it.
clones : (a : ℕ) (d : DaemonOwnerInner) → Change (named d) (named (clone_arc a d))
clones a d =
    same_files d (clone_arc a d) (clone_arc-keeps a d) (exit_lock-arcs a d).0
      (λ b _. descriptor-clone_arc a b d)

drops :
    (a : ℕ) (s : System)
    → Inv s
    → ((b : ℕ) → one_if a b ≤ main_holds b s.main + tasks_hold b s.tasks)
    → Change (named s.inner) (named (drop_arc a s.inner))
drops a s v held =
    same_files s.inner (drop_arc a s.inner) (drop_arc-keeps a s.inner) (exit_lock-arcs a s.inner).1
      (λ b p. descriptor-drop_arc a b s.inner (omega (arith, v.counted b, held b, p)))

drops_task :
    (a : ℕ) (t : Task) (ts us : List Task) (s : System)
    → Inv s
    → s.tasks ≡ ts ++ t ∷ us
    → ((b : ℕ) → task_holds b t ≡ one_if a b)
    → Change (named s.inner) (named (drop_arc a s.inner))
drops_task a t ts us s v e holds = drops a s v λ b.
    let split : tasks_hold b s.tasks ≡ tasks_hold b (ts ++ us) + task_holds b t =
      rw e (tasks_hold-middle b t ts us) in
    omega (arith, split, holds b)

register_enters :
    (fd id : ℕ) (d' : DaemonOwnerInner) (s : System)
    → Inv s
    → s.inner.exit_lock ≡ false
    → insert_descriptor s.inner.next_address
        (new_arc fd (record s.inner { readers = s.inner.readers + 1 })).1
      ≡ some (id, d')
    → Change (named s.inner) (named d')
unfolding new_arc
register_enters fd id d' s v unlocked done =
    let (vacant, entry) = entered_file fd id s.inner d' v.heap (opened s v) unlocked done in
    let files : (λ j. file_of j d') ≡ name_file id (some fd) (λ j. file_of j s.inner) =
      fun_ext entry in
    let l : d'.exit_lock ≡ s.inner.exit_lock =
      insert_descriptor-exit_lock s.inner.next_address id
        (new_arc fd (record s.inner { readers = s.inner.readers + 1 })).1 d' done in
    rw (files, l) (enters id fd vacant unlocked)

unregister_leaves :
    (m : Unregister) (a : ℕ) (s : System)
    → Inv s
    → get m.id s.inner.descriptors ≡ some a
    → Change (named s.inner) (named (unregister_remove s.inner m).1)
unfolding unregister_remove
unregister_leaves m a s v e =
    let (x, found) = file_open m.id a s v e in
    let files : (λ id. file_of id (unregister_remove s.inner m).1)
        ≡ name_file m.id none (λ id. file_of id s.inner) =
      fun_ext λ j. unregistered_file m a j s.inner e in
    let l : (unregister_remove s.inner m).1.exit_lock ≡ s.inner.exit_lock = ground (arith, e) in
    rw (files, l)
      (leaves m.id x.descriptor (unfold file_of descriptor_at in ground (arith, e, found)))

exit_changes :
    (s : System)
    → Inv s
    → (try_exit s.inner).0 ≡ ok tt
    → Change (named s.inner) (named (try_exit s.inner).1)
unfolding try_exit file_of descriptor_at
exit_changes s v done =
    let free : (s.inner.readers == 0) ≡ true = ground arith in
    rw (free, try_exit)
      (exits λ id. elim (Option-cases (get id s.inner.descriptors)) [
        | inl e ↦ ground (arith, e)
        | inr (a, e) ↦
            let (x, found) = file_open id a s v e in
            absurd (
              ground (
                arith,
                v.heap.guarded,
                v.counted a,
                mapped-pos id a s.inner.descriptors e,
                strong-length a s.inner.heap,
              ))
      ])

Step-Change : {s t : System} → Inv s → Step s t → Change (named s.inner) (named t.inner)
unfolding file_of
Step-Change {s} v (Step.registers ret errno action m {r} {d} at_idle done) =
    elim (handle_fd_register-cases ret errno action m r s.inner d done) [
      | inl (e, _, same) ↦ rw same stays
      | inr (id, _, unlocked, entry) ↦ register_enters m.fd id d s v unlocked entry
    ]
Step-Change {s} v (Step.removes_interrupt m at_idle) =
    let (same, kept) = handle_interrupt_remove-keeps m s.inner in
    same_files s.inner (handle_interrupt_remove s.inner m).1 kept
      (unfold handle_interrupt_remove in ground arith) (λ a _. rw same refl)
Step-Change {s} v (Step.spawns_unregister m at_idle) = stays
Step-Change {s} v (Step.looks_up id a at_idle found) = clones a s.inner
Step-Change {s} v (Step.clones a at_using) = clones a s.inner
Step-Change {s} v (Step.spawn_fails a at_spawning) = drops a s v (λ b. ground arith)
Step-Change {s} v (Step.spawn_refused a t g at_spawning tracker failed) = stays
Step-Change {s} v (Step.spawns a t g at_spawning tracker fresh tracked) = stays
Step-Change {s} v (Step.returns a at_using) = drops a s v (λ b. ground arith)
Step-Change {s} v (Step.misses m ts us at_start failed) = stays
Step-Change {s} v (Step.removes m a ts us at_start removed) =
    unregister_leaves m a s v (unfold unregister_remove in ground arith)
Step-Change {s} v (Step.forbids a g ts us at_stopping tracker) = stays
Step-Change {s} v (Step.drained a g ts us at_draining tracker empty) = stays
Step-Change {s} v (Step.unregistered a x ts us at_waiting found last) =
    drops_task a (waiting a) ts us s v at_waiting (λ b. refl)
Step-Change {s} v (Step.refused_ends a ts us at_refused) =
    drops_task a (refused a) ts us s v at_refused (λ b. refl)
Step-Change {s} v (Step.adds_interrupt a t id h ts us {d} at_locking done) =
    let (hp, _, _, x, m, _) = handle_interrupt_add-keeps h id s.inner d done in
    same_files s.inner d m x (λ b _. rw hp refl)
Step-Change {s} v (Step.lock_returns a t ts us at_locking) =
    drops_task a (locking a t) ts us s v at_locking (λ b. refl)
Step-Change {s} v (Step.untracks a t g ts us at_untracking tracker) = stays
Step-Change {s} v (Step.exits done) = exit_changes s v done

-- Every step of the threads from a reachable state does to the files that the IDs name what `Change` allows, and
-- nothing else; and in the state after it, the IDs that name a file are those that the handlers find
-- in the descriptor map.
pub owner_refines :
    {s t : System}
    → Reach s
    → Step s t
    → Change (named s.inner) (named t.inner)
      × ((id : ℕ) → (file_of id t.inner ≡ none) ↔ (get id t.inner.descriptors ≡ none))
owner_refines {s} {t} r st =
    (Step-Change (Reach-Inv r) st, λ id. known id t (Reach-Inv (next r st)))
