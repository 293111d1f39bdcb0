-- ===== src/Protocol/Creation.antt =====
-- An owner process on demand, from end to end: the request of `get_or_create_owner` in src/lib.rs, the
-- coordinator of src/owner_spawner.rs, the new process of src/processes.rs and src/main.rs, and the
-- reply.
use ulockmgr.Prelude.{
  ℕ, ◌<◌, ◌^◌, ◌≡◌, refl, ap, true, false, none, some, List, [], ◌∷◌, length, arith,
}
use ulockmgr.Prelude.Assoc.{get, insert}
use ulockmgr.IoError.{os, ok, map_err}
use ulockmgr.Messages.Traits.{OwnedFd}
use ulockmgr.Messages.RequestSpawnOwner.{Duration, RequestSpawnOwner, create_reply}
use ulockmgr.Messages.RequestSpawnOwner
use ulockmgr.Client.Calls.{received}
use ulockmgr.Client.Owner.{Client, send_request_with_fds, spawn}
use ulockmgr.Wire.Raw.{frame}
use ulockmgr.Wire.Request.{Decodes, send_request_iter_with_fds, receive_request, next, first_item}
use ulockmgr.Wire.Delivery.{Delivers}
use ulockmgr.Wire.Exchange.{Fits, request_arrives, reply_arrives}
use ulockmgr.Manager.Owners.{LockManager, find_or_spawn}
use ulockmgr.Manager.Connect.{connect}
use ulockmgr.Spawner.{serve}
use ulockmgr.Processes.{Table, Process, Clap, Pair, owning, spawn_owner_process, main}
use ulockmgr.Processes.Start.{granted, IsNew, spawn_owner_process-serves}

module _ (c : Client) where
  open c use {net, errnos, duration, unit_reply}
  open net use {World, socketpair, sendmsg}

  -- What a client relies on for one request: that its calls succeed, and that what it sends, and the
  -- reply with the socket of the new owner, are delivered.
  pub record Grants (coordinator at_coordinator parent child owner : OwnedFd) (ttl : Duration)
      (bytes reply_bytes : List ℕ) (w w₁ w₂ w₃ w₄ w₅ : World) : Type 0 where
    pub encodes : duration.encode ttl ≡ ok bytes
    pub decodes : Decodes duration
    pub fits : Fits net bytes (child ∷ [])
    pub pairs : socketpair w ≡ (ok (parent, child), w₁)
    pub sends :
        sendmsg coordinator (frame net bytes (child ∷ [])) (child ∷ []) w₁
        ≡ (ok (length (frame net bytes (child ∷ []))), w₂)
    pub delivers : Delivers net at_coordinator (frame net bytes (child ∷ [])) (child ∷ []) w₃ w₄
    pub reply_encodes : unit_reply.encode (ok tt) ≡ ok reply_bytes
    pub reply_decodes : Decodes unit_reply
    pub reply_fits : Fits net reply_bytes (owner ∷ [])
    pub reply_delivers : Delivers net parent (frame net reply_bytes (owner ∷ [])) (owner ∷ []) w₂ w₅

  spawn_lem :
      (coordinator parent owner : OwnedFd) (ttl : Duration) (w w₂ w₅ : World)
      → send_request_iter_with_fds net RequestSpawnOwner.serializable duration coordinator
          (record { ttl = ttl })
          w
        ≡ (ok parent, w₂)
      → next net errnos unit_reply parent w₂ ≡ (some (received (ok (tt, owner ∷ []))), w₅)
      → spawn c coordinator ttl w ≡ (ok (owner ∷ []), w₅)
  unfolding spawn send_request_with_fds first_item received
  spawn_lem coordinator parent owner ttl w w₂ w₅ sent got = ground (arith, sent, got)

  entered :
      (coordinator owner : OwnedFd) (owner_id : ℕ) (ttl : Duration) (m : LockManager) (w w₅ : World)
      → get owner_id m.owners ≡ none
      → spawn c coordinator ttl w ≡ (ok (owner ∷ []), w₅)
      → find_or_spawn (connect c coordinator) errnos owner_id ttl false m w
        ≡ (ok (owner, true), record m { owners = insert owner_id owner m.owners }, w₅)
  unfolding find_or_spawn
  entered coordinator owner owner_id ttl m w w₅ unknown spawned = ground (arith, unknown, spawned)

  requests :
      (at_coordinator child owner : OwnedFd) (ttl : Duration) (w₃ w₄ : World)
      → receive_request net RequestSpawnOwner.serializable duration at_coordinator w₃
        ≡ (ok (record { ttl = ttl }, child), w₄)
      → serve errnos (
          record {
            request =
                (receive_request net RequestSpawnOwner.serializable duration at_coordinator w₃).0;
            spawned = ok owner;
          }
          ∷ [])
        ≡ (none, record { ttl = ttl; reply = create_reply child; fds = owner ∷ [] } ∷ [])
  unfolding serve
  requests at_coordinator child owner ttl w₃ w₄ came = rw came refl

  -- When the owner ID is unknown, a request for an owner reaches the coordinator, which starts a process
  -- and answers once, on the descriptor that came with the request, with the socket of the new
  -- process; the client enters this socket under the ID; and the new process serves on the other end
  -- of it, with the time-to-live that the client asked for. Every call on the way succeeds, the new
  -- descriptors are new, and the sockets deliver.
  pub owner_is_created :
      (ebadf : ℕ) (clap : Clap) (p : Pair) (t : Table)
      (coordinator at_coordinator parent child : OwnedFd) (owner_id : ℕ) (ttl : Duration)
      (m : LockManager) (bytes reply_bytes : List ℕ) (w w₁ w₂ w₃ w₄ w₅ : World)
      → Grants coordinator at_coordinator parent child p.parent_fd ttl bytes reply_bytes w w₁ w₂ w₃
          w₄ w₅
      → IsNew ebadf clap p t
      → p.child_fd < 2 ^ 31
      → ttl.secs < 2 ^ 64
      → ttl.nanos < 10 ^ 9
      → get owner_id m.owners ≡ none
      → let (spawned, _, process) = spawn_owner_process ebadf ttl (granted ebadf clap p t) t in
        (serve errnos (
            record {
              request =
                  (receive_request net RequestSpawnOwner.serializable duration at_coordinator w₃).0;
              spawned = map_err os spawned;
            }
            ∷ [])
          ≡ (none, record { ttl = ttl; reply = create_reply child; fds = p.parent_fd ∷ [] } ∷ []))
        × (find_or_spawn (connect c coordinator) errnos owner_id ttl false m w ≡ (
          ok (p.parent_fd, true),
          record m { owners = insert owner_id p.parent_fd m.owners },
          w₅,
        ))
        × ((new : Process) × (process ≡ some new)
            × ((main ebadf clap (ok tt) new).0 ≡ owning p.child_fd ttl))
  owner_is_created ebadf clap p t coordinator at_coordinator parent child owner_id ttl m bytes
        reply_bytes w w₁ w₂ w₃ w₄ w₅ k new fits secs nanos unknown =
      let (process, table, table', spawned, serves, _) =
        spawn_owner_process-serves ebadf clap p t ttl new fits secs nanos in
      let (sent, came) =
        request_arrives net RequestSpawnOwner.serializable duration coordinator at_coordinator
          parent child (record { ttl = ttl }) bytes w w₁ w₂ w₃ w₄
          (unfold RequestSpawnOwner.serialize RequestSpawnOwner.deserialize in λ r. refl) k.decodes
          (unfold RequestSpawnOwner.serialize in k.encodes)
          (unfold RequestSpawnOwner.serialize in k.fits) k.pairs
          (unfold RequestSpawnOwner.serialize in k.sends)
          (unfold RequestSpawnOwner.serialize in k.delivers) in
      let (got, _) =
        reply_arrives net errnos unit_reply parent (ok tt) (p.parent_fd ∷ []) reply_bytes w₂ w₅
          k.reply_decodes k.reply_encodes k.reply_fits k.reply_delivers in
      rw spawned (
        requests at_coordinator child p.parent_fd ttl w₃ w₄ came,
        entered coordinator p.parent_fd owner_id ttl m w w₅ unknown
            (spawn_lem coordinator parent p.parent_fd ttl w w₂ w₅ sent got),
        (process, refl, ap (λ r. r.0) serves),
      )
