-- ===== src/Tests/Manager.antt =====
-- A manager with one owner, which is dead: asking for it makes a new one.
use ulockmgr.Prelude.{Option, ℕ, ◌+◌, ◌≡◌, refl, true, none, some, [], ◌∷◌, ◌==◌, if◌then◌else◌}
use ulockmgr.Prelude.Assoc.{Assoc, get, remove}
use ulockmgr.IoError.{IoError, os, custom, broken_pipe, Result, ok, err, io_cvt, errno_of}
use ulockmgr.Messages.Traits.{OwnedFd}
use ulockmgr.Kernel.{function}
use ulockmgr.Daemon.State.{DaemonOwnerInner, new_inner, acquire_exit_lock}
use ulockmgr.Daemon.Handlers.{handle_fd_register}
use ulockmgr.Client.Calls.{received}
use ulockmgr.Manager.Owners.{
  Peers, LockManager, default_ttl, find_or_spawn, check_owner, owner_loop, get_or_create_owner,
  register_file,
}
use ulockmgr.Manager.Cleanup.{Turn, timed_out}
use ulockmgr.Manager.Exited.{exited_owner_not_replaced}
use ulockmgr.Tests.Platform.{errnos}

abbrev ping : OwnedFd → ℕ → Result (Unit {0}) IoError × ℕ
ping owner w = (if owner == 3 then err (custom broken_pipe) else ok tt, w)

-- The world is the number of owners so far, and the owner at descriptor 3 is dead. A registration
-- finds that the owner has exited.
abbrev peers : Peers
peers = record {
  World = ℕ;
  spawn = λ _ w. (ok ((w + 10) ∷ []), w + 1);
  ping = ping;
  register = λ _ _ w. (err (os 5), w);
}

abbrev one_dead : LockManager
one_dead = record { owners = (0, 3) ∷ []; ttl = default_ttl }

abbrev one_new : LockManager
one_new = record { owners = (0, 10) ∷ []; ttl = default_ttl }

replaced : get_or_create_owner peers errnos 2 0 none one_dead 0 ≡ some (ok 10, one_new, 1)
unfolding get_or_create_owner owner_loop find_or_spawn check_owner get remove
replaced = refl

abbrev exited : DaemonOwnerInner
exited = record new_inner { exit_lock = true }

-- The owner exits between the ping and the registration.
exited_owner_not_replaced_example :
    register_file peers errnos 5 2 0 7 one_dead 0 ≡ some (err (os 5), one_new, 1)
exited_owner_not_replaced_example =
    exited_owner_not_replaced peers errnos 4 2 0 7 10 one_dead one_new 0 1 1 0 0 function exited
      exited (record { fd = 8 }) (err (custom broken_pipe)) refl replaced refl
      (unfold handle_fd_register acquire_exit_lock in refl)
      (unfold received io_cvt errno_of in refl)

-- Two owners, of which one is dead.
abbrev two_owners : Assoc OwnedFd
two_owners = (0, 3) ∷ (1, 8) ∷ []

-- Another thread enters an owner while the cleanup thread waits for the second time.
abbrev quiet : Turn peers errnos
quiet = record { others = λ m w. (m, w); woken = timed_out }

abbrev entered : Option OwnedFd → Assoc OwnedFd → Assoc OwnedFd
entered none m = (2, 9) ∷ m
entered (some _) m = m

abbrev entering : Turn peers errnos
entering = record { others = λ m w. (entered (get 2 m) m, w); woken = timed_out }
