-- ===== src/Daemon/Threads/Special.antt =====
-- The steps that change a tracker, or what an unregistration has seen of one.
use ulockmgr.Prelude.{
  ℕ, ◌+◌, ◌<◌, ◌≡◌, refl, ap, false, some, arith, List, [], ◌∷◌, ◌++◌, ◌==◌, Bool-cases, inl, inr,
}
use ulockmgr.Prelude.Assoc.{Assoc, get, put, insert}
use ulockmgr.IoError.{ok}
use ulockmgr.Messages.Unregister.{Unregister}
use ulockmgr.Tracker.{
  TrackerData, new_tracker, contains, insert_thread, track, untrack, forbid_spawn,
}
use ulockmgr.Tracker.Stop.{contains-remove_thread}
use ulockmgr.Daemon.System.{Task, unregistering, stopping, draining, waiting, locking, untracking}
use ulockmgr.Daemon.Invariant.{mapped, one_if}
use ulockmgr.Daemon.Threads.Defs.{tally, guarded, ending, closing, emptied, listed, Tracked}
use ulockmgr.Daemon.Threads.Counts.{emptied-le-closing, tally-swap, tally-drop, get-put-some}

module _ {n : ℕ} {m : Assoc TrackerData} {ids : Assoc ℕ} {tasks : List Task}
    (v : Tracked n m ids tasks) where
  -- A file is registered at a new address.
  pub registered :
      (id : ℕ)
      → mapped n ids ≡ 0
      → tally (ending n) tasks ≡ 0
      → Tracked (n + 1) (insert n new_tracker m) (insert id n ids) tasks
  unfolding get contains mapped
  registered id unmapped unended = record {
    fresh = λ a le. ground (arith, v.fresh a (omega arith));
    there = λ a lt. elim (Bool-cases (n == a)) [
      | inl here ↦ (new_tracker, ground (arith, here))
      | inr other ↦
          let (g, found) = v.there a (ground (arith, other)) in (g, ground (arith, other, found))
    ];
    exact = λ a u. ground (arith, v.exact a u, v.fresh n (omega arith));
    single = λ a. ground (arith, v.single a, unmapped, unended);
    closed = λ a h.
        let (g, found, shut) = v.closed a h in
        (g, ground (arith, found, v.fresh n (omega arith)), shut);
    empty = λ a u h. ground (arith, v.empty a u h);
  }

  -- `stop` closes a tracker.
  pub forbidden :
      (a : ℕ) (g : TrackerData) (ts us : List Task)
      → tasks ≡ ts ++ stopping a ∷ us
      → get a m ≡ some g
      → Tracked n (put a (forbid_spawn g) m) ids (ts ++ draining a ∷ us)
  unfolding forbid_spawn
  forbidden a g ts us e found =
      let swap = tally-swap (stopping a) (draining a) ts us tasks e in
      let put_at = get-put-some a (forbid_spawn g) m found in
      record {
        fresh = λ b le. ground (arith, v.fresh b le, put_at b);
        there = λ b lt. elim (Bool-cases (a == b)) [
          | inl here ↦ (forbid_spawn g, ground (arith, put_at b, here))
          | inr far ↦ let (h, at_b) = v.there b lt in (h, ground (arith, put_at b, far, at_b))
        ];
        exact = λ b u. ground (arith, v.exact b u, swap (guarded b u), put_at b);
        single = λ b. omega (arith, v.single b, swap (ending b));
        closed = λ b h. elim (Bool-cases (a == b)) [
          | inl here ↦ (forbid_spawn g, ground (arith, put_at b, here), refl)
          | inr far ↦
              let (k, at_b, shut) = v.closed b (ground (arith, swap (closing b), far, h)) in
              (k, ground (arith, put_at b, far, at_b), shut)
        ];
        empty = λ b u h.
            let none_left : listed b u m ≡ 0 = v.empty b u (omega (arith, swap (emptied b), h)) in
            ground (arith, put_at b, none_left);
      }

  -- `stop` sees a tracker without threads.
  pub seen_empty :
      (a : ℕ) (g : TrackerData) (ts us : List Task)
      → tasks ≡ ts ++ draining a ∷ us
      → get a m ≡ some g
      → g.threads ≡ []
      → Tracked n m ids (ts ++ waiting a ∷ us)
  unfolding contains
  seen_empty a g ts us e found none_left =
      let swap = tally-swap (draining a) (waiting a) ts us tasks e in
      record {
        fresh = v.fresh;
        there = v.there;
        exact = λ b u. omega (arith, v.exact b u, swap (guarded b u));
        single = λ b. omega (arith, v.single b, swap (ending b));
        closed = λ b h. v.closed b (omega (arith, swap (closing b), h));
        empty = λ b u h. elim (Bool-cases (a == b)) [
          | inl here ↦ ground (arith, here, ap (contains u) none_left)
          | inr far ↦ v.empty b u (ground (arith, swap (emptied b), far, h))
        ];
      }

  -- The guard of a new thread is made; no unregistration has closed the tracker.
  pub guard_made :
      (a t : ℕ) (g : TrackerData)
      → get a m ≡ some g
      → contains t g.threads ≡ false
      → (track t g).0 ≡ ok tt
      → Tracked n (put a (track t g).1 m) ids (locking a t ∷ tasks)
  unfolding tally track insert_thread contains
  guard_made a t g found new tracked =
      let put_at = get-put-some a (track t g).1 m found in
      let ajar : (b : ℕ) → 0 < tally (closing b) tasks → (a == b) ≡ false = λ b h.
        elim (Bool-cases (a == b)) [
          | inl here ↦
              let (k, at_b, shut) = v.closed b h in
              absurd (ground (arith, here, at_b, shut, found, tracked))
          | inr far ↦ far
        ] in
      record {
        fresh = λ b le. ground (arith, v.fresh b le, put_at b);
        there = λ b lt. elim (Bool-cases (a == b)) [
          | inl here ↦ ((track t g).1, ground (arith, put_at b, here))
          | inr far ↦ let (h, at_b) = v.there b lt in (h, ground (arith, put_at b, far, at_b))
        ];
        exact = λ b u. ground (arith, v.exact b u, put_at b, found, new, tracked);
        single = λ b. omega (arith, v.single b);
        closed = λ b h.
            let before : 0 < tally (closing b) tasks = omega (arith, h) in
            let (k, at_b, shut) = v.closed b before in
            (k, ground (arith, put_at b, ajar b before, at_b), shut);
        empty = λ b u h.
            let before : 0 < tally (emptied b) tasks = omega (arith, h) in
            let far : (a == b) ≡ false =
              ajar b (omega (arith, before, emptied-le-closing b tasks)) in
            ground (arith, put_at b, far, v.empty b u before);
      }

  -- The guard of a thread is dropped.
  pub guard_dropped :
      (a t : ℕ) (g : TrackerData) (ts us : List Task)
      → tasks ≡ ts ++ untracking a t ∷ us
      → get a m ≡ some g
      → Tracked n (put a (untrack t g) m) ids (ts ++ us)
  unfolding untrack
  guard_dropped a t g ts us e found =
      let drop = tally-drop (untracking a t) ts us tasks e in
      let put_at = get-put-some a (untrack t g) m found in
      record {
        fresh = λ b le. ground (arith, v.fresh b le, put_at b);
        there = λ b lt. elim (Bool-cases (a == b)) [
          | inl here ↦ (untrack t g, ground (arith, put_at b, here))
          | inr far ↦ let (h, at_b) = v.there b lt in (h, ground (arith, put_at b, far, at_b))
        ];
        exact = λ b u. ground (
          arith,
          v.exact b u,
          drop (guarded b u),
          put_at b,
          found,
          contains-remove_thread u t g.threads,
        );
        single = λ b. omega (arith, v.single b, drop (ending b));
        closed = λ b h.
            let (k, at_b, shut) = v.closed b (omega (arith, h, drop (closing b))) in
            elim (Bool-cases (a == b)) [
              | inl here ↦ (
                untrack t g,
                ground (arith, put_at b, here),
                ground (arith, here, at_b, shut, found),
              )
              | inr far ↦ (k, ground (arith, put_at b, far, at_b), shut)
            ];
        empty = λ b u h.
            let none_left : listed b u m ≡ 0 = v.empty b u (omega (arith, drop (emptied b), h)) in
            ground (arith, put_at b, none_left, found, contains-remove_thread u t g.threads);
      }

  -- An unregistration takes the file out of the descriptor map.
  pub taken :
      (a : ℕ) (ids' : Assoc ℕ) (r : Unregister) (ts us : List Task)
      → tasks ≡ ts ++ unregistering r ∷ us
      → ((b : ℕ) → mapped b ids' + one_if a b ≡ mapped b ids)
      → Tracked n m ids' (ts ++ stopping a ∷ us)
  taken a ids' r ts us e counts =
      let swap = tally-swap (unregistering r) (stopping a) ts us tasks e in
      record {
        fresh = v.fresh;
        there = v.there;
        exact = λ b u. omega (arith, v.exact b u, swap (guarded b u));
        single = λ b. omega (arith, v.single b, swap (ending b), counts b);
        closed = λ b h. v.closed b (omega (arith, swap (closing b), h));
        empty = λ b u h. v.empty b u (omega (arith, swap (emptied b), h));
      }
