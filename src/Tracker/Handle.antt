-- ===== src/Tracker/Handle.antt =====
-- `InterruptibleHandle::stop` of src/tracker.rs: interrupt one thread until it has ended.
-- Each look at the exit flag of the thread is given, with how often `try_lock` fails after it.
use ulockmgr.Prelude.{
  ℕ, ◌≡◌, ◌≢◌, refl, Bool, true, false, arith, List, [], ◌∷◌, ◌++◌, ◌==◌, ◌||◌, not, if◌then◌else◌,
  Bool-cases, inl, inr,
}
use ulockmgr.Backoff.{Backoff}
use ulockmgr.Tracker.{InterruptibleHandle}
use ulockmgr.Tracker.Loops.{relock, is_empty}

pub record Look : Type 0 where
  pub exited : Bool
  pub failures : ℕ

-- `waiting`: the looks given are over, and the thread has not ended.
pub data Ending : Type 0 where
  returned waiting panicked : Ending

module _ (b : Backoff) where
  open b use {State, new, snooze, is_completed}

  -- The loop, for the backoff and the flag `snooze_interrupt_done`; `me` is the calling thread. The
  -- result comes with the threads that were sent SIGUSR1.
  unfoldable pub stop_loop : State → Bool → InterruptibleHandle → ℕ → List Look → Ending × List ℕ
  stop_loop s interrupt_done handle me [] = (waiting, [])
  stop_loop s interrupt_done handle me (l ∷ ls) =
      let rest =
        stop_loop (if is_completed s then s else relock b (snooze s) l.failures)
          (not (is_completed s) || interrupt_done) handle me ls in
      if l.exited then (returned, []) else if handle.thread == me then (panicked, []) else (
        rest.0,
        (if is_completed s || not interrupt_done then handle.thread ∷ [] else []) ++ rest.1,
      )

  -- `InterruptibleHandle::stop`
  unfoldable pub stop : InterruptibleHandle → ℕ → List Look → Ending × List ℕ
  stop handle me looks = stop_loop new false handle me looks

unfoldable pub has_exited : List Look → Bool
has_exited [] = false
has_exited (l ∷ ls) = l.exited || has_exited ls

abbrev pub AllEqual : ℕ → List ℕ → Type 0
AllEqual t [] = Unit
AllEqual t (x ∷ xs) = (x ≡ t) × AllEqual t xs

module _ (b : Backoff) where
  AllEqual-signal :
      (send : Bool) (t : ℕ) (xs : List ℕ)
      → AllEqual t xs
      → AllEqual t ((if send then t ∷ [] else []) ++ xs)
  AllEqual-signal true t xs a = (refl, a)
  AllEqual-signal false t xs a = a

  other_thread :
      (s : b.State) (done : Bool) (handle : InterruptibleHandle) (me : ℕ) (looks : List Look)
      → handle.thread ≢ me
      → ((stop_loop b s done handle me looks).0 ≡ (if has_exited looks then returned else waiting))
        × AllEqual handle.thread (stop_loop b s done handle me looks).1
  unfolding stop_loop has_exited
  other_thread s done handle me [] other = (refl, tt)
  other_thread s done handle me (l ∷ ls) other =
      let s' = if b.is_completed s then s else relock b (b.snooze s) l.failures in
      let (ends, sent) = other_thread s' (not (b.is_completed s) || done) handle me ls other in
      let differs : (handle.thread == me) ≡ false = ground arith in
      elim (Bool-cases l.exited) [
        | inl gone ↦ (ground (arith, gone), rw gone tt)
        | inr alive ↦ (
          ground (arith, alive, differs, ends),
          rw (alive, differs)
              (AllEqual-signal (b.is_completed s || not done) handle.thread
                (stop_loop b s' (not (b.is_completed s) || done) handle me ls).1 sent),
        )
      ]

  -- Stopping another thread returns if one of the looks finds that it has ended, and waits if not,
  -- whatever the backoff does; all signals go to this thread, and the first goes out at once unless
  -- it has ended already. A thread that stops itself panics, unless it is marked as ended, and sends
  -- no signal.
  pub stop_one :
      (handle : InterruptibleHandle) (me : ℕ) (first : Look) (looks : List Look)
      → handle.thread ≢ me
      → ((stop b handle me (first ∷ looks)).0
          ≡ (if has_exited (first ∷ looks) then returned else waiting))
        × AllEqual handle.thread (stop b handle me (first ∷ looks)).1
        × ((first.exited || not (is_empty (stop b handle me (first ∷ looks)).1)) ≡ true)
        × (stop b handle handle.thread (first ∷ looks)
            ≡ (if first.exited then returned else panicked, []))
  unfolding stop stop_loop
  stop_one handle me first looks other =
      let (ends, sent) = other_thread b.new false handle me (first ∷ looks) other in
      let differs : (handle.thread == me) ≡ false = ground arith in
      let same : (handle.thread == handle.thread) ≡ true = ground arith in
      elim (Bool-cases first.exited) [
        | inl gone ↦ (ends, sent, rw gone refl, rw gone refl)
        | inr alive ↦ elim (Bool-cases (b.is_completed b.new)) [
          | inl slow ↦ (ends, sent, rw (alive, differs, slow) refl, rw (alive, same) refl)
          | inr quick ↦ (ends, sent, rw (alive, differs, quick) refl, rw (alive, same) refl)
        ]
      ]
