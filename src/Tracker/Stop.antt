-- ===== src/Tracker/Stop.antt =====
-- A tracker of src/tracker.rs that `stop` has closed, under any order of the critical sections of its
-- threads' guards.
use ulockmgr.Prelude.{ℕ, ◌≡◌, refl, Bool, false, arith, List, [], ◌∷◌, ◌==◌, ◌&&◌, ◌||◌, not}
use ulockmgr.IoError.{custom, other, err}
use ulockmgr.Tracker.{
  TrackerData, contains, insert_thread, remove_thread, track, untrack, forbid_spawn,
}

-- `InterruptibleGuard::new` and `InterruptibleGuard::drop` on the shared data.
pub data Access : Type 0 where
  enters : (thread : ℕ) → Access
  leaves : (thread : ℕ) → Access

unfoldable pub access : Access → TrackerData → TrackerData
access (enters t) g = (track t g).1
access (leaves t) g = untrack t g

unfoldable pub accesses : List Access → TrackerData → TrackerData
accesses [] g = g
accesses (a ∷ xs) g = accesses xs (access a g)

-- Whether a thread has left.
unfoldable pub has_left : ℕ → List Access → Bool
has_left t [] = false
has_left t (enters _ ∷ xs) = has_left t xs
has_left t (leaves u ∷ xs) = (u == t) || has_left t xs

pub contains-remove_thread :
    (t u : ℕ) (ts : List ℕ) → contains t (remove_thread u ts) ≡ (contains t ts && not (u == t))
unfolding contains remove_thread
contains-remove_thread t u [] = refl
contains-remove_thread t u (x ∷ ts) = ground (arith, contains-remove_thread t u ts)

pub contains-insert_thread :
    (t u : ℕ) (ts : List ℕ) → contains t (insert_thread u ts) ≡ ((u == t) || contains t ts)
unfolding insert_thread contains
contains-insert_thread t u ts = ground arith

pub closed_accesses :
    (xs : List Access) (g : TrackerData)
    → g.can_spawn ≡ false
    → ((accesses xs g).can_spawn ≡ false)
      × ((t : ℕ)
          → contains t (accesses xs g).threads ≡ (contains t g.threads && not (has_left t xs)))
unfolding accesses access has_left track untrack
closed_accesses [] g closed = (closed, λ t. ground arith)
closed_accesses (enters u ∷ xs) g closed =
    let (still, left) = closed_accesses xs (track u g).1 (ground (arith, closed)) in
    (still, λ t. ground (arith, left t, closed))
closed_accesses (leaves u ∷ xs) g closed =
    let (still, left) = closed_accesses xs (untrack u g) (ground (arith, closed)) in
    (still, λ t. ground (arith, left t, contains-remove_thread t u g.threads))

-- Once `stop` has closed a tracker, whatever its threads do in whatever order, every further thread
-- is refused, and the threads that are tracked are exactly those that were tracked when it was
-- closed and have not left since.
pub forbid_spawn_lasts :
    (xs : List Access) (g : TrackerData)
    → let g' = accesses xs (forbid_spawn g) in
      ((t : ℕ) → track t g' ≡ (err (custom other), g'))
      × ((t : ℕ) → contains t g'.threads ≡ (contains t g.threads && not (has_left t xs)))
unfolding forbid_spawn track
forbid_spawn_lasts xs g =
    let (closed, left) = closed_accesses xs (forbid_spawn g) refl in
    (λ t. ground (arith, closed), left)
