-- ===== src/Daemon/Invariant/Files.antt =====
-- `handle_fd_register` and the start of `handle_fd_unregister` in src/owner.rs keep the heap well
-- formed, and what they add to the strong counts they add to the map, and the other way round.
use ulockmgr.Prelude.{
  ℕ, ◌+◌, ◌-◌, ◌<◌, ◌^◌, ◌≡◌, ◌⊎◌, refl, ap, false, none, some, inl, inr, arith, [], ◌∷◌, length,
  Option-cases, Bool-cases,
}
use ulockmgr.Prelude.Assoc.{Assoc, Distinct, get, insert, remove, remove-none}
use ulockmgr.IoError.{IoError, custom, broken_pipe, Result, ok, err}
use ulockmgr.Kernel.{SigHandler, ensure_sigaction_exists}
use ulockmgr.Messages.Register.{Register}
use ulockmgr.Daemon.Ids.{Given, insert_vacant, insert_vacant_lem}
use ulockmgr.Daemon.State.{DaemonOwnerInner, acquire_exit_lock, new_arc}
use ulockmgr.Daemon.Handlers.{insert_descriptor, register_locked, handle_fd_register}
use ulockmgr.Daemon.Invariant.Defs.{strong_at, one_if, mapped, IsHeap}
use ulockmgr.Daemon.Invariant.Arcs.{new_arc-IsHeap, strong-new_arc}

-- The heap looks at six fields only.
pub IsHeap-same :
    {d d' : DaemonOwnerInner}
    → d'.heap ≡ d.heap
    → d'.readers ≡ d.readers
    → d'.next_address ≡ d.next_address
    → d'.exit_lock ≡ d.exit_lock
    → d'.descriptors ≡ d.descriptors
    → d'.next_id ≡ d.next_id
    → IsHeap d
    → IsHeap d'
IsHeap-same h r n e m i v = record {
  distinct = rw h v.distinct;
  fresh = λ a le. rw h (v.fresh a (rw n at le));
  positive = λ a x q. v.positive a x (rw h at q);
  guarded = rw (h, r) v.guarded;
  closed = λ q. rw h (v.closed (rw e at q));
  ids_distinct = rw m v.ids_distinct;
  id_fits = rw i v.id_fits;
}

pub mapped-remove :
    (id a b : ℕ) (m : Assoc ℕ)
    → Distinct m
    → get id m ≡ some a
    → mapped b (remove id m) + one_if a b ≡ mapped b m
unfolding mapped get remove
mapped-remove id a b [] d e = cc
mapped-remove id a b ((j, c) ∷ m) d e =
    ground (arith, mapped-remove id a b m d.1, remove-none j m d.0)

-- What a step did to the counts of an address and of the map.
abbrev pub Balanced : DaemonOwnerInner → DaemonOwnerInner → Type 0
Balanced d d' =
    (b : ℕ)
    → strong_at b d'.heap + mapped b d.descriptors ≡ strong_at b d.heap + mapped b d'.descriptors

with_descriptors : Given ℕ → DaemonOwnerInner → DaemonOwnerInner
with_descriptors g d = record d { descriptors = g.entries; next_id = g.next_id }

with_descriptors-IsHeap :
    (a : ℕ) (g : Given ℕ) (d : DaemonOwnerInner)
    → IsHeap d
    → get g.id d.descriptors ≡ none
    → g.entries ≡ insert g.id a d.descriptors
    → g.next_id < 2 ^ 64
    → IsHeap (with_descriptors g d)
unfolding with_descriptors
with_descriptors-IsHeap a g d v vacant e lt = record {
  distinct = v.distinct;
  fresh = v.fresh;
  positive = v.positive;
  guarded = v.guarded;
  closed = v.closed;
  ids_distinct = rw e (vacant, v.ids_distinct);
  id_fits = lt;
}

mapped-with_descriptors :
    (a b : ℕ) (g : Given ℕ) (d : DaemonOwnerInner)
    → g.entries ≡ insert g.id a d.descriptors
    → mapped b (with_descriptors g d).descriptors ≡ mapped b d.descriptors + one_if a b
unfolding mapped with_descriptors
mapped-with_descriptors a b g d e = rw e (omega arith)

-- What a success of `insert_descriptor` leaves.
insert_descriptor_inv :
    (a id : ℕ) (d d' : DaemonOwnerInner)
    → insert_descriptor a d ≡ some (id, d')
    → (g : Given ℕ) × (insert_vacant (length d.descriptors + 1) d.next_id a d.descriptors ≡ some g)
      × (id ≡ g.id)
      × (d' ≡ with_descriptors g d)
unfolding insert_descriptor with_descriptors
insert_descriptor_inv a id d d' h =
    elim (Option-cases (insert_vacant (length d.descriptors + 1) d.next_id a d.descriptors)) [
      | inl e ↦ absurd (ground arith)
      | inr (g, e) ↦ (g, e, ground arith, ground arith)
    ]

pub insert_descriptor_lem :
    (a id : ℕ) (d d' : DaemonOwnerInner)
    → IsHeap d
    → insert_descriptor a d ≡ some (id, d')
    → IsHeap d'
      × (d'.heap ≡ d.heap)
      × ((b : ℕ) → mapped b d'.descriptors ≡ mapped b d.descriptors + one_if a b)
      × (get id d.descriptors ≡ none)
      × (d'.descriptors ≡ insert id a d.descriptors)
insert_descriptor_lem a id d d' v h =
    let (g, found, same_id, e) = insert_descriptor_inv a id d d' h in
    let (vacant, entries, fits) =
      insert_vacant_lem (length d.descriptors + 1) d.next_id a d.descriptors g v.id_fits found in
    rw (e, same_id)
      (
        with_descriptors-IsHeap a g d v vacant entries fits,
        unfold with_descriptors in refl,
        λ b. mapped-with_descriptors a b g d entries,
        vacant,
        unfold with_descriptors in entries,
      )

-- The guarded file is made, then entered.
module _ (fd id : ℕ) (d d' : DaemonOwnerInner) (v : IsHeap d) (unlocked : d.exit_lock ≡ false)
    (done : insert_descriptor d.next_address (new_arc fd (record d { readers = d.readers + 1 })).1
      ≡ some (id, d')) where
  abbrev pub locked : DaemonOwnerInner
  locked = record d { readers = d.readers + 1 }

  locked-IsHeap : IsHeap (new_arc fd locked).1
  locked-IsHeap =
      new_arc-IsHeap fd locked (IsHeap-same {d = d} refl (omega arith) refl refl refl refl v)
        unlocked (omega arith)

  pub entered :
      IsHeap d'
      × (d'.heap ≡ (new_arc fd locked).1.heap)
      × ((b : ℕ)
          → mapped b d'.descriptors
            ≡ mapped b (new_arc fd locked).1.descriptors + one_if d.next_address b)
      × (get id (new_arc fd locked).1.descriptors ≡ none)
      × (d'.descriptors ≡ insert id d.next_address (new_arc fd locked).1.descriptors)
  entered = insert_descriptor_lem d.next_address id (new_arc fd locked).1 d' locked-IsHeap done

  entered-Balanced : Balanced d d'
  unfolding new_arc
  entered-Balanced b =
      let (_, same, counts, _, _) = entered in
      let e = strong-new_arc fd b locked (v.fresh d.next_address (omega arith)) in
      rw same (omega (arith, e, counts b))

released : (d : DaemonOwnerInner) → record d { readers = d.readers + 1 - 1 } ≡ d
released d =
    let e : d.readers + 1 - 1 ≡ d.readers = omega arith in ap (λ n. record d { readers = n }) e

-- Either a registration fails and changes nothing, or the owner has not exited and the new file
-- is entered under the ID that is returned.
abbrev pub Registers : ℕ → Result ℕ IoError → DaemonOwnerInner → DaemonOwnerInner → Type 0
Registers fd r d d' =
    ((e : IoError) × (r ≡ err e) × (d' ≡ d))
    ⊎ ((id : ℕ) × (r ≡ ok id)
        × (d.exit_lock ≡ false)
        × (insert_descriptor d.next_address (new_arc fd (record d { readers = d.readers + 1 })).1
            ≡ some (id, d')))

register_locked-cases :
    (q : Result (Unit {0}) IoError) (fd : ℕ) (r : Result ℕ IoError) (d d' : DaemonOwnerInner)
    → d.exit_lock ≡ false
    → register_locked q fd (record d { readers = d.readers + 1 }) ≡ some (r, d')
    → Registers fd r d d'
unfolding register_locked new_arc
register_locked-cases (err e) fd r d d' unlocked h =
    inl (e, ground arith, ground (arith, released d))
register_locked-cases (ok _) fd r d d' unlocked h =
    elim (Option-cases
      (insert_descriptor d.next_address (new_arc fd (record d { readers = d.readers + 1 })).1)) [
        | inl e ↦ absurd (ground arith)
        | inr ((id, d''), e) ↦ inr (id, ground arith, unlocked, ground arith)
      ]

pub handle_fd_register-cases :
    (ret errno : ℕ) (action : SigHandler) (m : Register) (r : Result ℕ IoError)
    (d d' : DaemonOwnerInner)
    → handle_fd_register ret errno action d m ≡ some (r, d')
    → Registers m.fd r d d'
unfolding handle_fd_register acquire_exit_lock
handle_fd_register-cases ret errno action m r d d' h = elim (Bool-cases d.exit_lock) [
  | inl shut ↦ inl (custom broken_pipe, ground arith, ground arith)
  | inr unlocked ↦
      register_locked-cases (ensure_sigaction_exists ret errno action) m.fd r d d' unlocked
        (ground arith)
]

pub handle_fd_register-keeps :
    (ret errno : ℕ) (action : SigHandler) (m : Register) (r : Result ℕ IoError)
    (d d' : DaemonOwnerInner)
    → IsHeap d
    → handle_fd_register ret errno action d m ≡ some (r, d')
    → IsHeap d' × Balanced d d'
handle_fd_register-keeps ret errno action m r d d' v h =
    elim (handle_fd_register-cases ret errno action m r d d' h) [
      | inl (e, _, same) ↦ rw same (v, λ b. refl)
      | inr (id, _, unlocked, done) ↦
          ((entered m.fd id d d' v unlocked done).0, entered-Balanced m.fd id d d' v unlocked done)
    ]
