-- ===== src/Daemon/Spec/Files.antt =====
-- The files that the IDs of an owner process of src/owner.rs name, under its handlers.
use ulockmgr.Prelude.{
  ℕ, ◌+◌, ◌<◌, ◌≡◌, ◌≢◌, ◌↔◌, false, none, some, inl, inr, arith, Option-cases, ◌==◌, ◌∙◌,
}
use ulockmgr.Prelude.Assoc.{get, get-insert, get-remove}
use ulockmgr.IoError.{ok}
use ulockmgr.Daemon.State.{FdData, DaemonOwnerInner, clone_arc, drop_arc, new_arc}
use ulockmgr.Daemon.Handlers.{handle_fd_register, insert_descriptor, unregister_remove}
use ulockmgr.Kernel.{SigHandler}
use ulockmgr.Messages.Register.{Register}
use ulockmgr.Messages.Unregister.{Unregister}
use ulockmgr.Daemon.System.{System}
use ulockmgr.Daemon.Invariant.{
  mapped, IsHeap, Inv, mapped-pos, strong-clone_arc, clone_arc-keeps, drop_arc-keeps,
  handle_fd_register-cases, entered,
}
use ulockmgr.Daemon.Spec.{name_file, descriptor_at, file_of}
use ulockmgr.Daemon.Spec.Arcs.{descriptor-clone_arc, descriptor-drop_arc}

-- Two states in which the same IDs name files, and the files are the same.
pub file_of-same :
    (id : ℕ) (d d' : DaemonOwnerInner)
    → d'.descriptors ≡ d.descriptors
    → ((a : ℕ) → 0 < mapped a d.descriptors → descriptor_at a d'.heap ≡ descriptor_at a d.heap)
    → file_of id d' ≡ file_of id d
unfolding file_of
file_of-same id d d' m h = elim (Option-cases (get id d.descriptors)) [
  | inl e ↦ ground (arith, m)
  | inr (a, e) ↦ ground (arith, m, h a (mapped-pos id a d.descriptors e))
]

pub insert_descriptor-exit_lock :
    (a id : ℕ) (d d' : DaemonOwnerInner)
    → insert_descriptor a d ≡ some (id, d')
    → d'.exit_lock ≡ d.exit_lock
unfolding insert_descriptor
insert_descriptor-exit_lock a id d d' e = ground arith

-- A clone of the `Arc` of a registered file, and its drop, leave the files that are named.
pub brief_clone :
    (id a j : ℕ) (s : System)
    → Inv s
    → get id s.inner.descriptors ≡ some a
    → file_of j (drop_arc a (clone_arc a s.inner)) ≡ file_of j s.inner
brief_clone id a j s v e =
    file_of-same j s.inner (drop_arc a (clone_arc a s.inner))
      (drop_arc-keeps a (clone_arc a s.inner) ∙ clone_arc-keeps a s.inner)
      (λ b p.
        let more =
          strong-clone_arc a b s.inner
            (omega (arith, v.counted a, mapped-pos id a s.inner.descriptors e)) in
        descriptor-drop_arc a b (clone_arc a s.inner) (omega (arith, more, v.counted b))
        ∙ descriptor-clone_arc a b s.inner)

-- A file that an ID names is open.
pub file_open :
    (id a : ℕ) (s : System)
    → Inv s
    → get id s.inner.descriptors ≡ some a
    → (x : FdData) × (get a s.inner.heap ≡ some x)
file_open id a s v e = elim (Option-cases (get a s.inner.heap)) [
  | inl gone ↦ absurd (ground (arith, v.counted a, mapped-pos id a s.inner.descriptors e))
  | inr found ↦ found
]

-- A new file stands at a new address.
pub entered_file :
    (fd id : ℕ) (d d' : DaemonOwnerInner)
    → IsHeap d
    → ((a : ℕ) → 0 < mapped a d.descriptors → get a d.heap ≢ none)
    → d.exit_lock ≡ false
    → insert_descriptor d.next_address (new_arc fd (record d { readers = d.readers + 1 })).1
      ≡ some (id, d')
    → (file_of id d ≡ none) × ((j : ℕ) → file_of j d' ≡ name_file id (some fd) (λ i. file_of i d) j)
unfolding new_arc file_of descriptor_at
entered_file fd id d d' v opened unlocked done =
    let (_, heap, _, vacant, entry) = entered fd id d d' v unlocked done in
    let new : FdData = record { descriptor = fd; strong = 1 } in
    (
      ground (arith, vacant),
      λ j. elim (Option-cases (get j d.descriptors)) [
        | inl e ↦
            rw (entry, heap) ground
              (
                arith,
                get-insert id j d.next_address d.descriptors,
                get-insert d.next_address d.next_address new d.heap,
              )
        | inr (a, e) ↦
            let other : (d.next_address == a) ≡ false =
              ground (arith, v.fresh d.next_address, opened a, mapped-pos j a d.descriptors e) in
            rw (entry, heap) ground
              (
                arith,
                e,
                other,
                get-insert id j d.next_address d.descriptors,
                get-insert d.next_address a new d.heap,
              )
      ],
    )

pub opened :
    (s : System) → Inv s → (a : ℕ) → 0 < mapped a s.inner.descriptors → get a s.inner.heap ≢ none
opened s v a p q = ground (arith, q, p, v.counted a)

-- A registration that succeeds names the file by an ID that named none.
pub registered_file :
    (ret errno : ℕ) (action : SigHandler) (m : Register) (id : ℕ) (d' : DaemonOwnerInner)
    (s : System)
    → Inv s
    → handle_fd_register ret errno action s.inner m ≡ some (ok id, d')
    → (file_of id s.inner ≡ none)
      × ((j : ℕ) → file_of j d' ≡ name_file id (some m.fd) (λ i. file_of i s.inner) j)
registered_file ret errno action m id d' s v done =
    elim (handle_fd_register-cases ret errno action m (ok id) s.inner d' done) [
      | inl (e, failed, _) ↦ absurd cc
      | inr (i, same_id, unlocked, entry) ↦
          let same : i ≡ id = ground arith in
          rw same at (entered_file m.fd i s.inner d' v.heap (opened s v) unlocked entry)
    ]

-- An unregistration leaves an ID that names no file.
pub unregistered_file :
    (m : Unregister) (a j : ℕ) (d : DaemonOwnerInner)
    → get m.id d.descriptors ≡ some a
    → file_of j (unregister_remove d m).1 ≡ name_file m.id none (λ i. file_of i d) j
unfolding unregister_remove file_of descriptor_at
unregistered_file m a j d e = ground (arith, e, get-remove m.id j d.descriptors)

pub known :
    (id : ℕ) (s : System)
    → Inv s
    → (file_of id s.inner ≡ none) ↔ (get id s.inner.descriptors ≡ none)
unfolding file_of descriptor_at
known id s v = elim (Option-cases (get id s.inner.descriptors)) [
  | inl e ↦ (λ _. e, λ _. ground (arith, e))
  | inr (a, e) ↦
      let (x, found) = file_open id a s v e in
      (λ q. absurd (ground (arith, q, e, found)), λ q. absurd (ground (arith, q, e)))
]
