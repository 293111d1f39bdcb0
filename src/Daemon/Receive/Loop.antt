-- ===== src/Daemon/Receive/Loop.antt =====
-- `owner_receiving_loop` of src/owner.rs, any number of rounds, and the step relation.
use ulockmgr.Prelude.{
  ◌<◌, ◌^◌, ◌≡◌, ◌≢◌, ◌⊎◌, inl, inr, refl, Option, none, some, List, [], ◌∷◌, length, arith,
}
use ulockmgr.IoError.{IoError, Result-cases, ok, err, Errnos, kind}
use ulockmgr.Types.{Libc}
use ulockmgr.Kernel.{Kernel, block_all_signals}
use ulockmgr.Messages.Traits.{OwnedFd}
use ulockmgr.Messages.Message.{Message}
use ulockmgr.Daemon.State.{DaemonOwnerInner}
use ulockmgr.Daemon.System.{idle, Task, Reach}
use ulockmgr.Daemon.Receive.{
  Action, refresh, Incoming, Verdict, hang_up, recoverable, fatal, verdict, Ending, returned,
  dispatch, receive_loop, owner_receiving_loop,
}
use ulockmgr.Daemon.Receive.Path.{Steps, done, Steps-append, loop_at, IsNewThread}
use ulockmgr.Daemon.Receive.Refines.{tasks_after, dispatch_refines}

-- The tasks once all of this is done.
abbrev pub tasks_after_all : List Action → List Task → List Task
tasks_after_all [] ts = ts
tasks_after_all (a ∷ actions) ts = tasks_after_all actions (tasks_after a ts)

Verdict-cases : (v : Verdict) → (v ≡ recoverable) ⊎ (v ≢ recoverable)
Verdict-cases hang_up = inr (λ e. cc)
Verdict-cases recoverable = inl refl
Verdict-cases fatal = inr (λ e. cc)

module _ (k : Kernel) (c : Libc) (n : Errnos) where
  -- What is relied on in each round that has a message: fewer than 2^64 files are registered, and the
  -- number of a new thread is not that of a tracked one.
  abbrev pub AreServed : List Incoming → DaemonOwnerInner → k.World → Type 0
  AreServed [] d w = Unit
  AreServed (i ∷ is) d w = elim i.request [
    | err _ ↦ AreServed is d w
    | ok (m, fd) ↦
        (length d.descriptors < 2 ^ 64)
        × IsNewThread i.thread d
        × (elim (dispatch k c n i m fd d w) [ none ↦ Unit | some (a, d', w') ↦ AreServed is d' w' ])
  ]

  -- What the loop does leads from one state to another.
  abbrev pub Serves :
      DaemonOwnerInner
      → List Task
      → Option (Ending × List Action × DaemonOwnerInner × k.World)
      → Type 0
  Serves d ts r =
      (end : Ending) × (actions : List Action) × (d' : DaemonOwnerInner) × (w' : k.World) × (r
        ≡ some (end, actions, d', w'))
      × Steps (loop_at idle d ts) (loop_at idle d' (tasks_after_all actions ts))

  -- The rounds of the loop.
  module _ (i : Incoming) (is : List Incoming) (d : DaemonOwnerInner) (w : k.World) where
    ends :
        (e : IoError) (v : Verdict)
        → i.request ≡ err e
        → verdict (kind n e) ≡ v
        → v ≢ recoverable
        → (end : Ending) × (receive_loop k c n (i ∷ is) d w ≡ some (end, [], d, w))
    unfolding receive_loop
    ends e hang_up q u other = (returned (ok tt), ground (arith, q, u))
    ends e recoverable q u other = absurd (other refl)
    ends e fatal q u other = (returned (err e), ground (arith, q, u))

    passes :
        (e : IoError) (end : Ending) (actions : List Action) (d' : DaemonOwnerInner) (w' : k.World)
        → i.request ≡ err e
        → verdict (kind n e) ≡ recoverable
        → receive_loop k c n is d w ≡ some (end, actions, d', w')
        → receive_loop k c n (i ∷ is) d w ≡ some (end, refresh ∷ actions, d', w')
    unfolding receive_loop
    passes e end actions d' w' q u rest = ground (arith, q, u, rest)

    handles :
        (m : Message) (fd : OwnedFd) (a : Action) (d₁ : DaemonOwnerInner) (w₁ : k.World)
        (end : Ending) (actions : List Action) (d' : DaemonOwnerInner) (w' : k.World)
        → i.request ≡ ok (m, fd)
        → dispatch k c n i m fd d w ≡ some (a, d₁, w₁)
        → receive_loop k c n is d₁ w₁ ≡ some (end, actions, d', w')
        → receive_loop k c n (i ∷ is) d w ≡ some (end, refresh ∷ a ∷ actions, d', w')
    unfolding receive_loop
    handles m fd a d₁ w₁ end actions d' w' q handled rest = ground (arith, q, handled, rest)

  loop_refines :
      (is : List Incoming) (d : DaemonOwnerInner) (w : k.World) (ts : List Task)
      → Reach (loop_at idle d ts)
      → AreServed is d w
      → Serves d ts (receive_loop k c n is d w)
  unfolding receive_loop
  loop_refines [] d w ts r h = (_, _, _, _, refl, done)
  loop_refines (i ∷ is) d w ts r h = elim (Result-cases i.request) [
    | inl ((m, fd), q) ↦
        let (few, new, served) = rw q at h in
        let ((a, d₁, w₁), handled, path, reached) =
          dispatch_refines k c n i m fd d w ts r few new in
        let (end, actions, d', w', rest, path') =
          loop_refines is d₁ w₁ (tasks_after a ts) reached (rw handled at served) in
        (
          end,
          refresh ∷ a ∷ actions,
          d',
          w',
          handles i is d w m fd a d₁ w₁ end actions d' w' q handled rest,
          Steps-append path path',
        )
    | inr (e, q) ↦ elim (Verdict-cases (verdict (kind n e))) [
      | inl u ↦
          let (end, actions, d', w', rest, path) = loop_refines is d w ts r (rw q at h) in
          (end, refresh ∷ actions, d', w', passes i is d w e end actions d' w' q u rest, path)
      | inr other ↦
          let (end, stops) = ends i is d w e (verdict (kind n e)) q refl other in
          (end, [], d, w, stops, done)
    ]
  ]

  -- From every reachable state in which the command loop is idle, the loop handles whatever requests
  -- come, and broken ones, without getting stuck, if in each round fewer than 2^64 files are
  -- registered and the number of a new thread is not that of a tracked one; and when no other thread
  -- comes in between, the state and the threads that it leaves are reached by steps of the threads
  -- of the owner process.
  pub owner_receiving_loop_refines :
      (is : List Incoming) (d : DaemonOwnerInner) (w : k.World) (ts : List Task)
      → Reach (loop_at idle d ts)
      → AreServed is d (block_all_signals k w).1
      → Serves d ts (owner_receiving_loop k c n is d w)
  unfolding owner_receiving_loop
  owner_receiving_loop_refines is d w ts r h =
      let w' = (block_all_signals k w).1 in
      elim (Result-cases (block_all_signals k w).0) [
        | inl (_, q) ↦
            let (end, actions, d', w'', e, path) = loop_refines is d w' ts r h in
            (end, actions, d', w'', ground (arith, q, e), path)
        | inr (x, q) ↦ (returned (err x), [], d, w', ground (arith, q), done)
      ]
