-- ===== src/Tracker/Guard.antt =====
-- `InterruptibleGuard` of src/tracker.rs, and `InterruptibleTracker::guard`.
-- Each guard has a `RawInterruptibleExitTracker`: a flag, named here by its address. The drop of a
-- guard has two critical sections, of which the first is `untrack`.
pub mod Account
pub mod Nested
use ulockmgr.Prelude.{ℕ, ◌+◌, ◌≡◌, Bool, true, false, List, [], ◌∷◌, ◌++◌, ◌==◌, if◌then◌else◌}
use ulockmgr.IoError.{IoError, Result, ok, err}
use ulockmgr.Tracker.{TrackerData, InterruptibleHandle, new_tracker, track, untrack, forbid_spawn}

-- `thread` is the hosting thread, which is the one that drops the guard, since a guard is not Send.
pub record InterruptibleGuard : Type 0 where
  pub thread : ℕ
  pub exit : ℕ

-- A tracker, and the flags `exited` that its guards share with their handles.
pub record Guards : Type 0 where
  pub tracker : TrackerData
  pub exited : ℕ → Bool
  pub next_exit : ℕ

abbrev pub set_exited : ℕ → Bool → (ℕ → Bool) → ℕ → Bool
set_exited x b exited j = if x == j then b else exited j

-- `InterruptibleGuard::new`, called by `thread`
unfoldable pub new_guard :
    (thread exit : ℕ) → TrackerData → Result InterruptibleGuard IoError × TrackerData
new_guard thread exit g = new_guard' (track thread g)
  where
    new_guard' :
        Result (Unit {0}) IoError × TrackerData → Result InterruptibleGuard IoError × TrackerData
    new_guard' (err e, g') = (err e, g')
    new_guard' (ok _, g') = (ok (record { thread = thread; exit = exit }), g')

-- `InterruptibleTracker::guard`, called by `thread`. Where it fails, the new flag is freed at once.
unfoldable pub guard :
    ℕ → Guards → Result (InterruptibleGuard × InterruptibleHandle) IoError × Guards
guard thread s =
    let exit = s.next_exit in
    let (r, g) = new_guard thread exit s.tracker in
    elim r [
      | ok kept ↦ (
        ok (kept, record { thread = thread; exit = exit }),
        record { tracker = g; exited = set_exited exit false s.exited; next_exit = exit + 1 },
      )
      | err e ↦ (err e, record s { tracker = g })
    ]

-- `InterruptibleGuard::drop`: its two critical sections.
unfoldable pub untrack_guard : InterruptibleGuard → Guards → Guards
untrack_guard kept s = record s { tracker = untrack kept.thread s.tracker }

unfoldable pub mark_exited : InterruptibleGuard → Guards → Guards
mark_exited kept s = record s { exited = set_exited kept.exit true s.exited }

-- The guards in scope, and those whose drop is between its two critical sections.
pub record Holding : Type 0 where
  pub state : Guards
  pub held : List InterruptibleGuard
  pub dropping : List InterruptibleGuard

abbrev pub no_guards : Holding
no_guards = record {
  state = record { tracker = new_tracker; exited = λ _. false; next_exit = 0 };
  held = [];
  dropping = [];
}

pub data GuardStep (h : Holding) : Holding → Type 0 where
  takes :
      (thread : ℕ) (kept : InterruptibleGuard) (handle : InterruptibleHandle) (s' : Guards)
      → guard thread h.state ≡ (ok (kept, handle), s')
      → GuardStep h (record h { state = s'; held = kept ∷ h.held })
  cannot_take :
      (thread : ℕ) (e : IoError) (s' : Guards)
      → guard thread h.state ≡ (err e, s')
      → GuardStep h (record h { state = s' })
  drops :
      (kept : InterruptibleGuard) (xs ys : List InterruptibleGuard)
      → h.held ≡ xs ++ kept ∷ ys
      → GuardStep h (record {
        state = untrack_guard kept h.state;
        held = xs ++ ys;
        dropping = kept ∷ h.dropping;
      })
  exits :
      (kept : InterruptibleGuard) (xs ys : List InterruptibleGuard)
      → h.dropping ≡ xs ++ kept ∷ ys
      → GuardStep h (record h { state = mark_exited kept h.state; dropping = xs ++ ys })
  -- `InterruptibleTracker::stop` begins.
  closes :
      GuardStep h (record h { state = record h.state { tracker = forbid_spawn h.state.tracker } })

pub data GuardReach : Holding → Type 0 where
  unguarded : GuardReach no_guards
  further : {h h' : Holding} → GuardReach h → GuardStep h h' → GuardReach h'
