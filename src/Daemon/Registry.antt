-- ===== src/Daemon/Registry.antt =====
-- What the handlers of src/owner.rs do to the two ID maps, for every input.
use ulockmgr.Prelude.{
  ℕ, ◌+◌, ◌<◌, ◌^◌, ◌≡◌, refl, none, some, inl, inr, arith, length, ◌==◌, if◌then◌else◌,
  Option-cases, Bool-cases,
}
use ulockmgr.Prelude.Assoc.{get, insert, get-insert, get-remove}
use ulockmgr.IoError.{IoError, custom, not_found, broken_pipe, Result, ok, err}
use ulockmgr.Kernel.{SigHandler, ensure_sigaction_exists}
use ulockmgr.Messages.Register.{Register}
use ulockmgr.Messages.Unregister.{Unregister}
use ulockmgr.Daemon.Ids.{Given, insert_vacant, insert_vacant-total, insert_vacant_lem}
use ulockmgr.Daemon.State.{DaemonOwnerInner, InterruptibleHandle, acquire_exit_lock, new_arc}
use ulockmgr.Daemon.Handlers.{
  insert_descriptor, register_locked, handle_fd_register, unregister_remove, handle_interrupt_add,
  handle_interrupt_remove, interrupt_target,
}
use ulockmgr.Daemon.Invariant.{IsHeap, handle_fd_register-cases, entered}

-- In a state whose heap is well formed, a registration that succeeds returns an ID that was vacant, under which the file is now found
-- with its descriptor and one owner; every other ID means what it meant.
pub register_enters :
    (ret errno : ℕ) (action : SigHandler) (m : Register) (id : ℕ) (d d' : DaemonOwnerInner)
    → IsHeap d
    → handle_fd_register ret errno action d m ≡ some (ok id, d')
    → (get id d.descriptors ≡ none)
      × (get d.next_address d'.heap ≡ some (record { descriptor = m.fd; strong = 1 }))
      × ((j : ℕ)
          → get j d'.descriptors ≡ (if id == j then some d.next_address else get j d.descriptors))
unfolding new_arc
register_enters ret errno action m id d d' v h =
    elim (handle_fd_register-cases ret errno action m (ok id) d d' h) [
      | inl (e, failed, _) ↦ absurd (cc)
      | inr (i, same_id, unlocked, done) ↦
          let (_, heap, _, vacant, entry) = entered m.fd i d d' v unlocked done in
          let e : i ≡ id = ground arith in
          (
            ground (arith, vacant, e),
            ground (
              arith,
              heap,
              get-insert d.next_address d.next_address (record { descriptor = m.fd; strong = 1 })
                  d.heap,
            ),
            λ j. ground (arith, e, entry, get-insert i j d.next_address d.descriptors),
          )
    ]

insert_descriptor-total :
    (a : ℕ) (d : DaemonOwnerInner)
    → d.next_id < 2 ^ 64
    → length d.descriptors < 2 ^ 64
    → (id : ℕ) × (d' : DaemonOwnerInner) × (insert_descriptor a d ≡ some (id, d'))
unfolding insert_descriptor
insert_descriptor-total a d hn hl =
    let (g, e) =
      insert_vacant-total (length d.descriptors + 1) d.next_id a d.descriptors hn (omega arith)
        (omega arith) in
    (g.id, record d { descriptors = g.entries; next_id = g.next_id }, rw (e, insert_descriptor))

register_locked-total :
    (q : Result (Unit {0}) IoError) (fd : ℕ) (d : DaemonOwnerInner)
    → d.next_id < 2 ^ 64
    → length d.descriptors < 2 ^ 64
    → (p : Result ℕ IoError × DaemonOwnerInner) × (register_locked q fd d ≡ some p)
unfolding register_locked new_arc
register_locked-total (err e) fd d hn hl = (_, refl)
register_locked-total (ok _) fd d hn hl =
    let (id, d', e) = insert_descriptor-total d.next_address (new_arc fd d).1 hn hl in
    ((ok id, d'), rw (e, register_locked))

-- While fewer than 2^64 files are registered, and the counter of IDs fits 64 bits, the search for an ID ends and a registration answers.
pub register_answers :
    (ret errno : ℕ) (action : SigHandler) (m : Register) (d : DaemonOwnerInner)
    → d.next_id < 2 ^ 64
    → length d.descriptors < 2 ^ 64
    → (p : Result ℕ IoError × DaemonOwnerInner) × (handle_fd_register ret errno action d m ≡ some p)
unfolding handle_fd_register acquire_exit_lock
register_answers ret errno action m d hn hl = elim (Bool-cases d.exit_lock) [
  | inl shut ↦ ((err (custom broken_pipe), d), ground arith)
  | inr unlocked ↦
      let (p, e) =
        register_locked-total (ensure_sigaction_exists ret errno action) m.fd
          (record d { readers = d.readers + 1 }) hn hl in
      (p, ground (arith, e))
]

-- Unregistering takes exactly the one ID away: it is unknown from then on, so that a second try
-- reports that nothing is found and changes nothing, and every other ID means what it meant.
pub unregister_forgets :
    (m : Unregister) (a : ℕ) (d : DaemonOwnerInner)
    → get m.id d.descriptors ≡ some a
    → let (r, d') = unregister_remove d m in
      (r ≡ ok a)
      × (unregister_remove d' m ≡ (err (custom not_found), d'))
      × ((j : ℕ) → get j d'.descriptors ≡ (if m.id == j then none else get j d.descriptors))
      × (d'.heap ≡ d.heap)
unfolding unregister_remove
unregister_forgets m a d e = (
  ground arith,
  ground (arith, get-remove m.id m.id d.descriptors),
  λ j. ground (arith, get-remove m.id j d.descriptors),
  ground arith,
)

handle_interrupt_add-cases :
    (h : InterruptibleHandle) (id : ℕ) (d d' : DaemonOwnerInner)
    → handle_interrupt_add d h ≡ some (id, d')
    → (g : Given InterruptibleHandle) × (insert_vacant
          (length d.interrupts + 1)
          d.interrupt_next_id
          h
          d.interrupts
        ≡ some g)
      × (id ≡ g.id)
      × (d'.interrupts ≡ g.entries)
unfolding handle_interrupt_add
handle_interrupt_add-cases h id d d' q =
    elim (Option-cases
      (insert_vacant (length d.interrupts + 1) d.interrupt_next_id h d.interrupts)) [
        | inl e ↦ absurd (ground arith)
        | inr (g, e) ↦ (g, e, ground arith, ground arith)
      ]

-- If the counter of IDs fits 64 bits, an interrupt handle is found under the ID that it is given, which was vacant, until it is removed;
-- then the map means what it meant, and a second removal reports that nothing is found.
pub interrupt_lifetime :
    (h : InterruptibleHandle) (id : ℕ) (d d' : DaemonOwnerInner)
    → d.interrupt_next_id < 2 ^ 64
    → handle_interrupt_add d h ≡ some (id, d')
    → let (r, d'') = handle_interrupt_remove d' (record { id = id }) in
      (interrupt_target d (record { id = id }) ≡ err (custom not_found))
      × (interrupt_target d' (record { id = id }) ≡ ok h)
      × (r ≡ ok tt)
      × (handle_interrupt_remove d'' (record { id = id }) ≡ (err (custom not_found), d''))
      × ((j : ℕ) → get j d''.interrupts ≡ get j d.interrupts)
unfolding handle_interrupt_add handle_interrupt_remove interrupt_target
interrupt_lifetime h id d d' hn e =
    let (g, found, same_id, same) = handle_interrupt_add-cases h id d d' e in
    let (vacant, entries, _) =
      insert_vacant_lem (length d.interrupts + 1) d.interrupt_next_id h d.interrupts g hn found in
    let i : get id d.interrupts ≡ none = ground (arith, vacant) in
    let m : d'.interrupts ≡ insert id h d.interrupts = ground (arith, entries, same) in
    (
      ground arith,
      ground (arith, get-insert id id h d.interrupts),
      ground (arith, get-insert id id h d.interrupts),
      ground (arith, get-insert id id h d.interrupts, get-remove id id d'.interrupts),
      λ j. ground (
        arith,
        get-insert id id h d.interrupts,
        get-insert id j h d.interrupts,
        get-remove id j d'.interrupts,
      ),
    )
