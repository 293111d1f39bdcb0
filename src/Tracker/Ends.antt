-- ===== src/Tracker/Ends.antt =====
-- When `InterruptibleTracker::stop` of src/tracker.rs ends, and whom it interrupts.
use ulockmgr.Prelude.{
  ℕ, ◌≡◌, refl, Bool, true, false, arith, List, [], ◌∷◌, ◌++◌, ◌||◌, ◌&&◌, not, if◌then◌else◌,
  Bool-cases, inl, inr,
}
use ulockmgr.Backoff.{Backoff}
use ulockmgr.Tracker.{TrackerData, contains, forbid_spawn}
use ulockmgr.Tracker.Stop.{Access, has_left, closed_accesses}
use ulockmgr.Tracker.Loops.{
  Round, is_empty, backoff, next_backoff, next_interrupted, after_round, stop_loop, stop,
}

-- What other threads do, over all rounds.
abbrev pub all_others : List Round → List Access
all_others [] = []
all_others (r ∷ rs) = r.others ++ all_others rs

abbrev pub StartsWith : List ℕ → List (List ℕ) → Type 0
StartsWith ts [] = ⊥
StartsWith ts (us ∷ _) = us ≡ ts

has_left-append :
    (t : ℕ) (xs ys : List Access) → has_left t (xs ++ ys) ≡ (has_left t xs || has_left t ys)
unfolding has_left
has_left-append t [] ys = refl
has_left-append t (Access.enters u ∷ xs) ys = has_left-append t xs ys
has_left-append t (Access.leaves u ∷ xs) ys = ground (arith, has_left-append t xs ys)

pub none_contained : (ts : List ℕ) → ((t : ℕ) → contains t ts ≡ false) → ts ≡ []
unfolding contains
none_contained [] h = refl
none_contained (t ∷ ts) h = absurd (ground (arith, h t))

module _ (b : Backoff) where
  open b use {State}

  after_round_lem :
      (g : TrackerData) (r : Round) (rs : List Round)
      → g.can_spawn ≡ false
      → ((t : ℕ) → contains t g.threads ≡ true → has_left t (r.others ++ all_others rs) ≡ true)
      → ((after_round b g r).can_spawn ≡ false)
        × ((t : ℕ)
            → contains t (after_round b g r).threads ≡ true
            → has_left t (all_others rs) ≡ true)
  after_round_lem g r rs closed all_leave =
      let (still, left) = closed_accesses r.others (record g { new_thread = false }) closed in
      (
        still,
        λ t h.
            let was : contains t g.threads ≡ true = ground (arith, left t) in
            ground (arith, left t, all_leave t was, has_left-append t r.others (all_others rs)),
      )

  loop_ends :
      (s : State) (done : Bool) (g : TrackerData) (rounds : List Round)
      → g.can_spawn ≡ false
      → ((t : ℕ) → contains t g.threads ≡ true → has_left t (all_others rounds) ≡ true)
      → (stop_loop b s done g rounds).ended ≡ true
  unfolding stop_loop has_left
  loop_ends s done g [] closed all_leave =
      rw (none_contained g.threads λ t. ground (arith, all_leave t)) refl
  loop_ends s done g (r ∷ rs) closed all_leave =
      let (still, leave) = after_round_lem g r rs closed all_leave in
      elim (Bool-cases (is_empty g.threads)) [
        | inl empty ↦ rw empty refl
        | inr tracked ↦ rw tracked (
            loop_ends (next_backoff b s g r) (next_interrupted b s done g) (after_round b g r) rs
              still leave)
      ]

  loop_drains :
      (s : State) (done : Bool) (g : TrackerData) (rounds : List Round)
      → g.can_spawn ≡ false
      → ((stop_loop b s done g rounds).ended
          ≡ is_empty (stop_loop b s done g rounds).tracker.threads)
        × ((stop_loop b s done g rounds).tracker.can_spawn ≡ false)
  unfolding stop_loop
  loop_drains s done g [] closed = (refl, closed)
  loop_drains s done g (r ∷ rs) closed =
      let (still, _) = closed_accesses r.others (record g { new_thread = false }) closed in
      elim (Bool-cases (is_empty g.threads)) [
        | inl empty ↦ (ground (arith, empty), rw empty closed)
        | inr tracked ↦ rw tracked (
            loop_drains (next_backoff b s g r) (next_interrupted b s done g) (after_round b g r) rs
              still)
      ]

  -- `stop` ends once every thread that was tracked when it began has left, whatever the backoff does
  -- and whoever comes too late.
  pub stop_ends :
      (g : TrackerData) (rounds : List Round)
      → ((t : ℕ) → contains t g.threads ≡ true → has_left t (all_others rounds) ≡ true)
      → (stop b g rounds).ended ≡ true
  unfolding stop forbid_spawn
  stop_ends g rounds all_leave = loop_ends b.new false (forbid_spawn g) rounds refl all_leave

  -- `stop` ends only when no thread is tracked, and leaves the tracker closed. Where it has to wait,
  -- it interrupts every thread that is tracked before it lets go of the mutex.
  pub stop_drains :
      (g : TrackerData) (first : Round) (rounds : List Round)
      → is_empty g.threads ≡ false
      → ((stop b g (first ∷ rounds)).ended ≡ is_empty (stop b g (first ∷ rounds)).tracker.threads)
        × ((stop b g (first ∷ rounds)).tracker.can_spawn ≡ false)
        × StartsWith g.threads (stop b g (first ∷ rounds)).signals
  unfolding stop forbid_spawn stop_loop
  stop_drains g first rounds tracked =
      let (ended, closed) = loop_drains b.new false (forbid_spawn g) (first ∷ rounds) refl in
      (ended, closed, rw tracked (first_signal (b.is_completed (backoff b b.new g)) g.new_thread))
    where
      first_signal :
          (slow added : Bool)
          → StartsWith g.threads (
              (if slow || not (not added && false) then g.threads ∷ [] else [])
              ++ (stop_loop b
                  (next_backoff b b.new (forbid_spawn g) first)
                  (next_interrupted b b.new false (forbid_spawn g))
                  (after_round b (forbid_spawn g) first)
                  rounds).signals)
      first_signal true added = refl
      first_signal false true = refl
      first_signal false false = refl
