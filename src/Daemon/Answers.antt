-- ===== src/Daemon/Answers.antt =====
-- What the owner of src/owner.rs answers where it gives out an ID.
use ulockmgr.Prelude.{
  ℕ, ◌+◌, ◌<◌, ◌^◌, ◌≡◌, ◌⊎◌, ◌∙◌, ap, ◌==◌, if◌then◌else◌, none, some, inl, inr, arith, length,
  Option-cases,
}
use ulockmgr.Prelude.Assoc.{get, get-insert}
use ulockmgr.IoError.{IoError, Result, ok, err}
use ulockmgr.Kernel.{SigHandler}
use ulockmgr.Messages.Register.{Register}
use ulockmgr.Daemon.Ids.{insert_vacant, insert_vacant-total, insert_vacant_lem, insert_vacant-fits}
use ulockmgr.Daemon.State.{DaemonOwnerInner, InterruptibleHandle, new_arc}
use ulockmgr.Daemon.Handlers.{insert_descriptor, handle_fd_register, handle_interrupt_add}
use ulockmgr.Daemon.System.{System, Reach}
use ulockmgr.Daemon.Invariant.{handle_fd_register-cases}
use ulockmgr.Daemon.Registry.{register_enters, register_answers}
use ulockmgr.Daemon.Bounds.{Reach-IdsFit}
use ulockmgr.Daemon.Safety.{Reach-Inv}

interrupt_fits :
    (h : InterruptibleHandle) (d : DaemonOwnerInner)
    → d.interrupt_next_id < 2 ^ 64
    → length d.interrupts < 2 ^ 64
    → (id : ℕ) × (d' : DaemonOwnerInner) × (handle_interrupt_add d h ≡ some (id, d'))
      × (id < 2 ^ 64)
      × (get id d.interrupts ≡ none)
      × ((j : ℕ) → get j d'.interrupts ≡ (if id == j then some h else get j d.interrupts))
unfolding handle_interrupt_add
interrupt_fits h d fits few =
    let fuel : ℕ = length d.interrupts + 1 in
    let (g, e) =
      insert_vacant-total fuel d.interrupt_next_id h d.interrupts fits (omega arith)
        (omega arith) in
    let (vacant, entries, _) = insert_vacant_lem fuel d.interrupt_next_id h d.interrupts g fits e in
    (
      g.id,
      record d { interrupts = g.entries; interrupt_next_id = g.next_id },
      rw (e, handle_interrupt_add),
      insert_vacant-fits fuel d.interrupt_next_id h d.interrupts g fits e,
      vacant,
      λ j. rw entries (get-insert g.id j h d.interrupts),
    )

-- What a registration does to the maps: none, with an error, or it enters a file under an ID that fits
-- a u64 and was of no file, and nothing else.
abbrev pub Registered :
    (fd : ℕ) (d : DaemonOwnerInner) → Result ℕ IoError → DaemonOwnerInner → Type 0
Registered fd d r d' =
    ((e : IoError) × (r ≡ err e) × (d'.descriptors ≡ d.descriptors))
    ⊎ ((id : ℕ) × (r ≡ ok id)
        × (id < 2 ^ 64)
        × (get id d.descriptors ≡ none)
        × (get d.next_address d'.heap ≡ some (record { descriptor = fd; strong = 1 }))
        × ((j : ℕ)
            → get j d'.descriptors
              ≡ (if id == j then some d.next_address else get j d.descriptors)))

insert_descriptor-fits :
    (a id : ℕ) (d d' : DaemonOwnerInner)
    → d.next_id < 2 ^ 64
    → insert_descriptor a d ≡ some (id, d')
    → id < 2 ^ 64
unfolding insert_descriptor
insert_descriptor-fits a id d d' fits h =
    elim (Option-cases (insert_vacant (length d.descriptors + 1) d.next_id a d.descriptors)) [
      | inl e ↦ absurd (ground arith)
      | inr (g, e) ↦ ground (
        arith,
        e,
        insert_vacant-fits (length d.descriptors + 1) d.next_id a d.descriptors g fits e,
      )
    ]

registered :
    {s : System} (ret errno : ℕ) (action : SigHandler) (m : Register) (r : Result ℕ IoError)
    (d' : DaemonOwnerInner)
    → Reach s
    → handle_fd_register ret errno action s.inner m ≡ some (r, d')
    → Registered m.fd s.inner r d'
unfolding new_arc
registered {s} ret errno action m r d' reach h =
    elim (handle_fd_register-cases ret errno action m r s.inner d' h) [
      | inl (e, failed, same) ↦ inl (e, failed, ap (λ (d : DaemonOwnerInner). d.descriptors) same)
      | inr (id, same_id, _, inserted) ↦
          let (vacant, found, others) =
            register_enters ret errno action m id s.inner d' (Reach-Inv reach).heap
              (h ∙ ap (λ x. some (x, d')) same_id) in
          inr (
            id,
            same_id,
            insert_descriptor-fits s.inner.next_address id _ d' (Reach-IdsFit reach).files.counter
                inserted,
            vacant,
            found,
            others,
          )
    ]

-- In every reachable state in which fewer than 2^64 files are registered and fewer than 2^64
-- interrupts are known, a registration and a new interrupt are answered: their searches for an ID
-- end, whatever `sigaction` answers to the former. The registration fails and leaves the IDs of files
-- as they were, or answers with an ID below 2^64, which was the ID of no file, and under which the
-- file is found with its descriptor and one owner, while every other ID means what it meant. The
-- interrupt is found under an ID below 2^64 that was in no use, and every other means what it meant.
pub registration_fits :
    {s : System} (ret errno : ℕ) (action : SigHandler) (m : Register) (h : InterruptibleHandle)
    → Reach s
    → length s.inner.descriptors < 2 ^ 64
    → length s.inner.interrupts < 2 ^ 64
    → ((r : Result ℕ IoError) × (d' : DaemonOwnerInner) × (handle_fd_register ret errno action
            s.inner m
          ≡ some (r, d'))
        × Registered m.fd s.inner r d')
      × ((id : ℕ) × (d' : DaemonOwnerInner) × (handle_interrupt_add s.inner h ≡ some (id, d'))
          × (id < 2 ^ 64)
          × (get id s.inner.interrupts ≡ none)
          × ((j : ℕ)
              → get j d'.interrupts ≡ (if id == j then some h else get j s.inner.interrupts)))
registration_fits {s} ret errno action m h reach files locks =
    let fits = Reach-IdsFit reach in
    let ((r, d'), done) = register_answers ret errno action m s.inner fits.files.counter files in
    (
      (r, d', done, registered ret errno action m r d' reach done),
      interrupt_fits h s.inner fits.locks.counter locks,
    )
