-- ===== src/Protocol/Session.antt =====
-- A file from its registration to the drop of its `Lockable`, from end to end: the calls of a client of
-- src/owner.rs, the sockets, and the handlers of the owner process.
use ulockmgr.Prelude.{ℕ, ◌≡◌, refl, ap, ◌∙◌, Option, none, some, arith, ◌==◌, Bool-cases, inl, inr}
use ulockmgr.IoError.{os, Result, ok, map_ok, map_err, Errnos}
use ulockmgr.Types.{Libc, IsLibc, LockParams, params_into_flock}
use ulockmgr.Messages.Traits.{OwnedFd}
use ulockmgr.Messages.Message.{register, unregister, lock_command}
use ulockmgr.Messages.Message
use ulockmgr.Messages.Unregister.{Unregister}
use ulockmgr.Messages.Unregister
use ulockmgr.Kernel.{Kernel, SigHandler}
use ulockmgr.Daemon.State.{DaemonOwnerInner}
use ulockmgr.Daemon.Handlers.{handle_fd_register, unregister_remove}
use ulockmgr.Daemon.System.{System, Step, Reach, next, idle}
use ulockmgr.Daemon.Safety.{Reach-Inv}
use ulockmgr.Daemon.Spec.{file_of, name_file}
use ulockmgr.Daemon.Spec.Files.{registered_file, unregistered_file}
use ulockmgr.Daemon.Command.{replied, handle_lock_command}
use ulockmgr.Client.Owner.{Client, RawLockable, send_request, drop_lockable}
use ulockmgr.Client.Owner
use ulockmgr.Client.Locking.{set_lock_nonblocking}
use ulockmgr.Protocol.Trip.{Trip, IsCarried, request_answered}
use ulockmgr.Protocol.Registration.{Carries, register_reaches_owner}
use ulockmgr.Protocol.Locking.{asked, granted, file_found, set_lock_nonblocking_arrives}

module _ (client : Client) where
  open client use {net, unit_reply}
  open net use {World}

  -- The drop of a `Lockable` arrives as the message `Unregister` with its ID, and returns once the owner has answered.
  pub drop_arrives :
      (lockable : RawLockable) (at_owner : OwnedFd) (answer : Result (Unit {0}) ℕ) (w w' : World)
      → (t : Trip client unit_reply lockable.owner at_owner
          (unregister (record { id = lockable.id }))
          answer
          w
          w')
      → IsCarried client t × (drop_lockable client lockable w ≡ w')
  unfolding drop_lockable Message.serialize
  drop_arrives lockable at_owner answer w w' t =
      let (arrived, got) =
        request_answered client Unregister.serialize Unregister.deserialize Unregister.replyable
          unit_reply lockable.owner at_owner (record { id = lockable.id })
          (unregister (record { id = lockable.id })) answer w w' refl t in
      (arrived, ap (λ p. p.1) got)

-- What a registration has named is named no more after an unregistration; the other IDs are left.
as_before :
    (id j : ℕ) (file : Option ℕ) (before after_it after_drop : ℕ → Option ℕ)
    → before id ≡ none
    → after_it j ≡ name_file id file before j
    → after_drop j ≡ name_file id none after_it j
    → after_drop j ≡ before j
as_before id j file before after_it after_drop vacant e e' = elim (Bool-cases (id == j)) [
  | inl same ↦ ground (arith, vacant, e', same)
  | inr other ↦ ground (arith, e, e', other)
]

module _ (client : Client) (k : Kernel) (c : Libc) (n : Errnos) (l : IsLibc c) where
  open client use {net, block_all_signals, unit_reply, lock_reply}
  open net use {World}
  open k use {setlk}

  -- A client registers a file with an owner process, tries to lock it, and drops the `Lockable`, and the owner
  -- process, which is idle in a reachable state, handles these requests and no other in between. The registration
  -- arrives, and gives the client the ID that the owner has found; the lock is what the kernel answers to F_SETLK on the
  -- descriptor that was registered; the drop arrives with the same ID and returns with the answer, and the owner finds the file under it;
  -- and after it every ID names what it named before. The registration succeeds at the owner, the
  -- client can block its signals, and the requests and answers are carried.
  pub lockable_session :
      (owner at_owner fd cloned : OwnedFd) (id ret errno : ℕ) (action : SigHandler)
      (params : LockParams) (thread : Option ℕ) (old : client.SigSet) {s : System}
      (d₁ : DaemonOwnerInner) (lock : k.World) (w₁ w₁' w₂ blocked w₂' w₃ w₃' : World)
      → Reach s
      → s.main ≡ idle
      → handle_fd_register ret errno action s.inner (record { fd = cloned }) ≡ some (ok id, d₁)
      → (r : Carries client owner at_owner fd cloned (ok id) w₁ w₁')
      → block_all_signals w₂ ≡ (ok old, blocked)
      → (t : Trip client lock_reply owner at_owner
          (lock_command (asked (record { owner = owner; id = id }) params))
          (granted params (setlk cloned (params_into_flock c params) lock).0)
          blocked
          w₂')
      → (u : Trip client unit_reply owner at_owner (unregister (record { id = id })) (ok tt) w₃ w₃')
      → (d₂ : DaemonOwnerInner) × (a : ℕ) × IsCarried client r.trip
        × ((Owner.register client owner fd w₁).0 ≡ ok (record { owner = owner; id = id }))
        × IsCarried client t
        × (handle_lock_command k c n
              (asked (record { owner = owner; id = id }) params)
              thread
              d₁
              lock
            ≡ some (
              replied (granted params (setlk cloned (params_into_flock c params) lock).0),
              d₂,
              (setlk cloned (params_into_flock c params) lock).1,
            ))
        × ((set_lock_nonblocking client (record { owner = owner; id = id }) params w₂).0
            ≡ map_ok (λ _. params) (map_err os (setlk cloned (params_into_flock c params) lock).0))
        × IsCarried client u
        × (drop_lockable client (record { owner = owner; id = id }) w₃ ≡ w₃')
        × ((unregister_remove d₂ (record { id = id })).0 ≡ ok a)
        × ((j : ℕ) → file_of j (unregister_remove d₂ (record { id = id })).1 ≡ file_of j s.inner)
  lockable_session owner at_owner fd cloned id ret errno action params thread old {s} d₁ lock w₁ w₁'
        w₂ blocked w₂' w₃ w₃' reach at_idle registered r masks t u =
      let lockable : RawLockable = record { owner = owner; id = id } in
      let m : Unregister = record { id = id } in
      let (vacant, files) =
        registered_file ret errno action (record { fd = cloned }) id d₁ s (Reach-Inv reach)
          registered in
      let reach₁ =
        next reach (Step.registers ret errno action (record { fd = cloned }) at_idle registered) in
      let named : file_of id d₁ ≡ some cloned = ground (arith, files id) in
      let (came, given) = register_reaches_owner client owner at_owner fd cloned (ok id) w₁ w₁' r in
      let (d₂, arrived, handled, same, locked) =
        set_lock_nonblocking_arrives client k c n l lockable cloned params thread at_owner old lock
          w₂ blocked w₂' reach₁ named masks t in
      let (left, dropped) = drop_arrives client lockable at_owner (ok tt) w₃ w₃' u in
      let (a, _, found, _, _) = file_found id cloned d₂ (same id ∙ named) in
      (
        d₂,
        a,
        came,
        given,
        arrived,
        handled,
        locked,
        left,
        dropped,
        unfold unregister_remove in ground (arith, found),
        λ j.
            as_before id j (some cloned) (λ i. file_of i s.inner) (λ i. file_of i d₂)
              (λ i. file_of i (unregister_remove d₂ m).1) vacant (same j ∙ files j)
              (unregistered_file m a j d₂ found),
      )
