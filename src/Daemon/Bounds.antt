-- ===== src/Daemon/Bounds.antt =====
-- The IDs that src/owner.rs gives out, and the u64 that they are sent as.
use ulockmgr.Prelude.{
  ℕ, ◌+◌, ◌≤◌, ◌<◌, ◌^◌, ◌≡◌, refl, none, some, inl, inr, arith, length, Option-cases,
}
use ulockmgr.Prelude.Assoc.{Assoc, get, remove, get-insert, get-remove}
use ulockmgr.IoError.{IoError, Result}
use ulockmgr.Kernel.{SigHandler}
use ulockmgr.Messages.RemoveInterrupt.{RemoveInterrupt}
use ulockmgr.Messages.Register.{Register}
use ulockmgr.Messages.Unregister.{Unregister}
use ulockmgr.Daemon.Ids.{Given, insert_vacant, insert_vacant_lem, insert_vacant-fits}
use ulockmgr.Daemon.State.{
  DaemonOwnerInner, InterruptibleHandle, clone_arc, drop_arc, try_exit, new_arc,
}
use ulockmgr.Daemon.Handlers.{
  insert_descriptor, handle_fd_register, unregister_remove, handle_interrupt_add,
  handle_interrupt_remove,
}
use ulockmgr.Daemon.System.{System, Step, Reach, here, next}
use ulockmgr.Daemon.Invariant.{handle_fd_register-cases}

-- A counter of IDs and a map that is keyed by them.
pub record Fits {ℓ} {V : Type ℓ} (next_id : ℕ) (m : Assoc V) : Type ℓ where
  pub counter : next_id < 2 ^ 64
  pub keys : (id : ℕ) → 2 ^ 64 ≤ id → get id m ≡ none

pub record IdsFit (d : DaemonOwnerInner) : Type 0 where
  pub files : Fits d.next_id d.descriptors
  pub locks : Fits d.interrupt_next_id d.interrupts

insert_vacant-Fits {ℓ} :
    {V : Type ℓ} (fuel n : ℕ) (v : V) (m : Assoc V) (g : Given V)
    → insert_vacant fuel n v m ≡ some g
    → Fits n m
    → Fits g.next_id g.entries
insert_vacant-Fits fuel n v m g e f =
    let (_, entries, counter) = insert_vacant_lem fuel n v m g f.counter e in
    let id_fits = insert_vacant-fits fuel n v m g f.counter e in
    record {
      counter = counter;
      keys = λ id le. rw entries (ground (arith, get-insert g.id id v m, f.keys id le, id_fits));
    }

remove-Fits {ℓ} : {V : Type ℓ} (id n : ℕ) (m : Assoc V) → Fits n m → Fits n (remove id m)
remove-Fits id n m f = record {
  counter = f.counter;
  keys = λ j le. ground (arith, get-remove id j m, f.keys j le);
}

-- What leaves the maps and their counters alone.
abbrev Same : DaemonOwnerInner → DaemonOwnerInner → Type 0
Same d d' =
    (d'.next_id ≡ d.next_id)
    × (d'.descriptors ≡ d.descriptors)
    × (d'.interrupt_next_id ≡ d.interrupt_next_id)
    × (d'.interrupts ≡ d.interrupts)

Same-IdsFit : (d d' : DaemonOwnerInner) → Same d d' → IdsFit d → IdsFit d'
Same-IdsFit d d' (n, m, i, x) f = record { files = rw (n, m) f.files; locks = rw (i, x) f.locks }

clone_arc-Same : (a : ℕ) (d : DaemonOwnerInner) → Same d (clone_arc a d)
unfolding clone_arc
clone_arc-Same a d = ground arith

drop_arc-Same : (a : ℕ) (d : DaemonOwnerInner) → Same d (drop_arc a d)
unfolding drop_arc
drop_arc-Same a d = ground arith

try_exit-Same : (d : DaemonOwnerInner) → Same d (try_exit d).1
unfolding try_exit
try_exit-Same d = ground arith

insert_descriptor-IdsFit :
    (a id : ℕ) (d d' : DaemonOwnerInner)
    → insert_descriptor a d ≡ some (id, d')
    → IdsFit d
    → IdsFit d'
unfolding insert_descriptor
insert_descriptor-IdsFit a id d d' h f =
    elim (Option-cases (insert_vacant (length d.descriptors + 1) d.next_id a d.descriptors)) [
      | inl e ↦ absurd (ground arith)
      | inr (g, e) ↦
          let same : d' ≡ record d { descriptors = g.entries; next_id = g.next_id } =
            ground arith in
          rw same (record {
            files =
                insert_vacant-Fits (length d.descriptors + 1) d.next_id a d.descriptors g e f.files;
            locks = f.locks;
          })
    ]

handle_fd_register-IdsFit :
    (ret errno : ℕ) (action : SigHandler) (m : Register) (r : Result ℕ IoError)
    (d d' : DaemonOwnerInner)
    → handle_fd_register ret errno action d m ≡ some (r, d')
    → IdsFit d
    → IdsFit d'
unfolding new_arc
handle_fd_register-IdsFit ret errno action m r d d' h f =
    elim (handle_fd_register-cases ret errno action m r d d' h) [
      | inl (e, _, same) ↦ rw same f
      | inr (id, _, unlocked, inserted) ↦
          insert_descriptor-IdsFit d.next_address id _ d' inserted
            (record { files = f.files; locks = f.locks })
    ]

handle_interrupt_add-IdsFit :
    (h : InterruptibleHandle) (id : ℕ) (d d' : DaemonOwnerInner)
    → handle_interrupt_add d h ≡ some (id, d')
    → IdsFit d
    → IdsFit d'
unfolding handle_interrupt_add
handle_interrupt_add-IdsFit h id d d' q f =
    elim (Option-cases
      (insert_vacant (length d.interrupts + 1) d.interrupt_next_id h d.interrupts)) [
        | inl e ↦ absurd (ground arith)
        | inr (g, e) ↦
            let same : d' ≡ record d { interrupts = g.entries; interrupt_next_id = g.next_id } =
              ground arith in
            rw same (record {
              files = f.files;
              locks =
                  insert_vacant-Fits (length d.interrupts + 1) d.interrupt_next_id h d.interrupts g
                    e f.locks;
            })
      ]

handle_interrupt_remove-IdsFit :
    (m : RemoveInterrupt) (d : DaemonOwnerInner) → IdsFit d → IdsFit (handle_interrupt_remove d m).1
unfolding handle_interrupt_remove
handle_interrupt_remove-IdsFit m d f = elim (Option-cases (get m.id d.interrupts)) [
  | inl e ↦ rw (e, handle_interrupt_remove) f
  | inr (h, e) ↦
      rw (e, handle_interrupt_remove)
        (record {
          files = f.files;
          locks = remove-Fits m.id d.interrupt_next_id d.interrupts f.locks;
        })
]

unregister_remove-IdsFit :
    (m : Unregister) (d : DaemonOwnerInner) → IdsFit d → IdsFit (unregister_remove d m).1
unfolding unregister_remove
unregister_remove-IdsFit m d f = elim (Option-cases (get m.id d.descriptors)) [
  | inl e ↦ rw (e, unregister_remove) f
  | inr (a, e) ↦
      rw (e, unregister_remove)
        (record { files = remove-Fits m.id d.next_id d.descriptors f.files; locks = f.locks })
]

Step-IdsFit : {s t : System} → Step s t → IdsFit s.inner → IdsFit t.inner
Step-IdsFit {s} (Step.registers ret errno action m {r} {d} _ done) f =
    handle_fd_register-IdsFit ret errno action m r s.inner d done f
Step-IdsFit {s} (Step.removes_interrupt m _) f = handle_interrupt_remove-IdsFit m s.inner f
Step-IdsFit (Step.spawns_unregister _ _) f = f
Step-IdsFit {s} (Step.looks_up _ a _ _) f = Same-IdsFit s.inner _ (clone_arc-Same a s.inner) f
Step-IdsFit {s} (Step.clones a _) f = Same-IdsFit s.inner _ (clone_arc-Same a s.inner) f
Step-IdsFit {s} (Step.spawn_fails a _) f = Same-IdsFit s.inner _ (drop_arc-Same a s.inner) f
Step-IdsFit (Step.spawn_refused _ _ _ _ _ _) f = f
Step-IdsFit (Step.spawns _ _ _ _ _ _ _) f = record { files = f.files; locks = f.locks }
Step-IdsFit {s} (Step.returns a _) f = Same-IdsFit s.inner _ (drop_arc-Same a s.inner) f
Step-IdsFit (Step.misses _ _ _ _ _) f = f
Step-IdsFit {s} (Step.removes m _ _ _ _ _) f = unregister_remove-IdsFit m s.inner f
Step-IdsFit (Step.forbids _ _ _ _ _ _) f = record { files = f.files; locks = f.locks }
Step-IdsFit (Step.drained _ _ _ _ _ _ _) f = f
Step-IdsFit {s} (Step.unregistered a _ _ _ _ _ _) f =
    Same-IdsFit s.inner _ (drop_arc-Same a s.inner) f
Step-IdsFit {s} (Step.refused_ends a _ _ _) f = Same-IdsFit s.inner _ (drop_arc-Same a s.inner) f
Step-IdsFit {s} (Step.adds_interrupt _ _ id h _ _ {d} _ done) f =
    handle_interrupt_add-IdsFit h id s.inner d done f
Step-IdsFit {s} (Step.lock_returns a _ _ _ _) f = Same-IdsFit s.inner _ (drop_arc-Same a s.inner) f
Step-IdsFit (Step.untracks _ _ _ _ _ _ _) f = record { files = f.files; locks = f.locks }
Step-IdsFit {s} (Step.exits _) f = Same-IdsFit s.inner _ (try_exit-Same s.inner) f

pub Reach-IdsFit : {s : System} → Reach s → IdsFit s.inner
unfolding get
Reach-IdsFit here = record {
  files = record { counter = omega arith; keys = λ id le. refl };
  locks = record { counter = omega arith; keys = λ id le. refl };
}
Reach-IdsFit (next r st) = Step-IdsFit st (Reach-IdsFit r)
