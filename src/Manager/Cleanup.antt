-- ===== src/Manager/Cleanup.antt =====
-- `cleanup_thread` of src/lib.rs, and the drop of a `LockManager`, which lets it end.
-- What other threads do to the map of owners while the cleanup thread waits is given for each round.
use ulockmgr.Prelude.{ℕ, ◌≡◌, ◌≢◌, ◌⊎◌, Bool, true, false, List, [], ◌∷◌, ◌++◌, some}
use ulockmgr.Prelude.Assoc.{Assoc, get, Distinct}
use ulockmgr.IoError.{ok, Errnos}
use ulockmgr.Messages.Traits.{OwnedFd}
use ulockmgr.Manager.Owners.{Peers, cleanup}

-- What `recv_timeout` gives: a message, that every sender is gone, or neither within a second.
pub data Woken : Type 0 where
  message disconnected timed_out : Woken

module _ (p : Peers) (n : Errnos) where
  open p use {World, ping}

  pub record Turn : Type 0 where
    pub others : Assoc OwnedFd → World → Assoc OwnedFd × World
    pub woken : Woken

  -- Whether the thread has ended, and the map.
  pub record Cleaned : Type 0 where
    pub ended : Bool
    pub owners : Assoc OwnedFd
    pub world : World

  -- The end of a wait: the loop ends as it stands, or goes on.
  abbrev after_wait : Woken → Cleaned → Cleaned → Cleaned
  after_wait message stopped rest = stopped
  after_wait disconnected stopped rest = stopped
  after_wait timed_out stopped rest = rest

  -- Without further rounds the thread waits.
  unfoldable pub cleanup_thread : List Turn → Assoc OwnedFd → World → Cleaned
  cleanup_thread [] m w = record { ended = false; owners = m; world = w }
  cleanup_thread (t ∷ ts) m w =
      let (m', w') = t.others m w in
      let (m'', w'') = cleanup p n m' w' in
      after_wait t.woken (record { ended = true; owners = m'; world = w' })
        (cleanup_thread ts m'' w'')

  -- The drop of the manager, after some rounds: the only sender goes.
  unfoldable pub drop_manager : List Turn → Assoc OwnedFd → World → Cleaned
  unfolding cleanup_thread
  drop_manager ts m w =
      cleanup_thread (ts ++ record { others = λ m w. (m, w); woken = disconnected } ∷ []) m w

  -- Other threads keep one owner for an ID.
  abbrev pub KeepDistinct : List Turn → Type 0
  KeepDistinct [] = Unit
  KeepDistinct (t ∷ ts) =
      ((m : Assoc OwnedFd) (w : World) → Distinct m → Distinct (t.others m w).0) × KeepDistinct ts

  module _ (id owner : ℕ) (dead : (s : World) → (ping owner s).0 ≢ ok tt) where
    -- The thread has ended, or the dead owner is out.
    abbrev IsOut : Cleaned → Type 0
    IsOut r = (r.ended ≡ true) ⊎ (get id r.owners ≢ some owner)
