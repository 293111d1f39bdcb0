-- ===== src/Manager/Connect.antt =====
-- The requests of `LockManager`, of src/lib.rs, as those of a client over sockets: the interface `Peers` is
-- filled by `Owner` of src/owner.rs and by the request for a new owner.
use ulockmgr.IoError.{map_ok}
use ulockmgr.Messages.Traits.{OwnedFd}
use ulockmgr.Client.Owner.{Client, ping, register, spawn}
use ulockmgr.Manager.Owners.{Peers}

-- The coordinator's socket is the field `communication` of the manager.
abbrev pub connect : Client → OwnedFd → Peers
connect c coordinator = record {
  World = c.net.World;
  spawn = spawn c coordinator;
  ping = ping c;
  register = λ owner fd w. let (r, w') = register c owner fd w in (map_ok (λ l. l.id) r, w');
}
