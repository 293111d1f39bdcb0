-- ===== src/Tracker/Guard/Account.antt =====
-- The guards of a tracker of src/tracker.rs, its threads, and the flags of the guards.
use native.Mathlib.Decide.{dec_lt}
use ulockmgr.Prelude.{
  ℕ, ◌+◌, ◌<◌, ◌≡◌, refl, ◌∙◌, Bool, true, false, arith, List, [], ◌∷◌, ◌++◌, ◌==◌, ◌||◌, ◌&&◌, not,
  ltb, Bool-cases, inl, inr, if◌then◌else◌,
}
use ulockmgr.IoError.{IoError, custom, other, ok, err}
use ulockmgr.Tracker.{InterruptibleHandle, contains, insert_thread, track, untrack, forbid_spawn}
use ulockmgr.Tracker.Stop.{contains-insert_thread, contains-remove_thread}
use ulockmgr.Tracker.Guard.{
  InterruptibleGuard, Guards, set_exited, new_guard, guard, untrack_guard, mark_exited, Holding,
  no_guards, GuardStep, GuardReach, unguarded, further,
}

-- Whether a thread hosts one of the guards, and how many of them have a flag.
unfoldable pub hosts : ℕ → List InterruptibleGuard → Bool
hosts t [] = false
hosts t (k ∷ ks) = (k.thread == t) || hosts t ks

unfoldable pub sharers : ℕ → List InterruptibleGuard → ℕ
sharers x [] = 0
sharers x (k ∷ ks) = (if k.exit == x then 1 else 0) + sharers x ks

pub hosts-append :
    (t : ℕ) (xs ys : List InterruptibleGuard) → hosts t (xs ++ ys) ≡ (hosts t xs || hosts t ys)
unfolding hosts
hosts-append t [] ys = refl
hosts-append t (k ∷ xs) ys = ground (arith, hosts-append t xs ys)

pub sharers-append :
    (x : ℕ) (xs ys : List InterruptibleGuard) → sharers x (xs ++ ys) ≡ sharers x xs + sharers x ys
unfolding sharers
sharers-append x [] ys = omega arith
sharers-append x (k ∷ xs) ys = ground (arith, sharers-append x xs ys)

-- How a flag and the guards go together.
abbrev pub owned : ℕ → Holding → ℕ
owned x h = sharers x h.held + sharers x h.dropping

pub record Account (h : Holding) : Type 0 where
  pub hosted : (t : ℕ) → contains t h.state.tracker.threads ≡ true → hosts t h.held ≡ true
  pub fresh : (x : ℕ) → h.state.next_exit < x + 1 → owned x h ≡ 0
  pub flagged : (x : ℕ) → x < h.state.next_exit → owned x h ≡ (if h.state.exited x then 0 else 1)

-- The state after a guard has been given.
abbrev pub given : ℕ → Guards → Guards
given thread s = record {
  tracker = record s.tracker {
    threads = insert_thread thread s.tracker.threads;
    new_thread = true;
  };
  exited = set_exited s.next_exit false s.exited;
  next_exit = s.next_exit + 1;
}

pub guard-free :
    (thread : ℕ) (s : Guards)
    → s.tracker.can_spawn ≡ true
    → guard thread s ≡ (
      ok (
        record { thread = thread; exit = s.next_exit },
        record { thread = thread; exit = s.next_exit },
      ),
      given thread s,
    )
unfolding guard new_guard track
guard-free thread s free = rw free refl

guard-closed :
    (thread : ℕ) (s : Guards)
    → s.tracker.can_spawn ≡ false
    → guard thread s ≡ (err (custom other), s)
unfolding guard new_guard track
guard-closed thread s closed = rw closed refl

guard_ok :
    (thread : ℕ) (s s' : Guards) (kept : InterruptibleGuard) (handle : InterruptibleHandle)
    → guard thread s ≡ (ok (kept, handle), s')
    → (kept ≡ record { thread = thread; exit = s.next_exit }) × (s' ≡ given thread s)
guard_ok thread s s' kept handle e = elim (Bool-cases s.tracker.can_spawn) [
  | inl free ↦ let e' = guard-free thread s free in (cc, cc)
  | inr closed ↦ let e' = guard-closed thread s closed in absurd cc
]

guard_err : (thread : ℕ) (s s' : Guards) (x : IoError) → guard thread s ≡ (err x, s') → s' ≡ s
guard_err thread s s' x e = elim (Bool-cases s.tracker.can_spawn) [
  | inl free ↦ let e' = guard-free thread s free in absurd cc
  | inr closed ↦ let e' = guard-closed thread s closed in cc
]

start-Account : Account no_guards
unfolding contains sharers
start-Account = record {
  hosted = λ t h. cc;
  fresh = λ x h. refl;
  flagged = λ x h. absurd (omega (arith, h));
}

taken :
    (thread : ℕ) (h : Holding)
    → Account h
    → Account (record h {
      state = given thread h.state;
      held = record { thread = thread; exit = h.state.next_exit } ∷ h.held;
    })
unfolding hosts sharers
taken thread h v = record {
  hosted =
      λ t c. ground (arith, c, v.hosted t, contains-insert_thread t thread h.state.tracker.threads);
  fresh = λ x l. ground (arith, l, v.fresh x);
  flagged = λ x l. ground (arith, l, v.fresh x, v.flagged x);
}

dropped :
    (kept : InterruptibleGuard) (xs ys : List InterruptibleGuard) (h : Holding)
    → h.held ≡ xs ++ kept ∷ ys
    → Account h
    → Account (record {
      state = untrack_guard kept h.state;
      held = xs ++ ys;
      dropping = kept ∷ h.dropping;
    })
unfolding hosts sharers untrack_guard untrack
dropped kept xs ys h e v =
    let moved : (x : ℕ) → sharers x (xs ++ ys) + sharers x (kept ∷ h.dropping) ≡ owned x h =
      λ x. rw e ground (arith, sharers-append x xs ys, sharers-append x xs (kept ∷ ys)) in
    record {
      hosted = λ t c.
          let was = rw e at (v.hosted t) in
          ground (
            arith,
            c,
            was,
            hosts-append t xs ys,
            hosts-append t xs (kept ∷ ys),
            contains-remove_thread t kept.thread h.state.tracker.threads,
          );
      fresh = λ x l. moved x ∙ v.fresh x l;
      flagged = λ x l. moved x ∙ v.flagged x l;
    }

exited_once :
    (kept : InterruptibleGuard) (xs ys : List InterruptibleGuard) (h : Holding)
    → h.dropping ≡ xs ++ kept ∷ ys
    → Account h
    → Account (record h { state = mark_exited kept h.state; dropping = xs ++ ys })
unfolding sharers mark_exited
exited_once kept xs ys h e v =
    let fewer : (x : ℕ)
        → owned x h
          ≡ sharers x h.held + ((if kept.exit == x then 1 else 0) + sharers x (xs ++ ys)) =
      λ x. rw e ground (arith, sharers-append x xs ys, sharers-append x xs (kept ∷ ys)) in
    record {
      hosted = v.hosted;
      fresh = λ x l. ground (arith, fewer x, v.fresh x l);
      flagged = λ x l. ground (arith, fewer x, v.flagged x l);
    }

GuardStep-Account : {h h' : Holding} → GuardStep h h' → Account h → Account h'
unfolding forbid_spawn
GuardStep-Account {h} (GuardStep.takes thread kept handle s' e) v =
    let (e₁, e₂) = guard_ok thread h.state s' kept handle e in rw (e₁, e₂) (taken thread h v)
GuardStep-Account {h} (GuardStep.cannot_take thread x s' e) v =
    rw (guard_err thread h.state s' x e) v
GuardStep-Account {h} (GuardStep.drops kept xs ys e) v = dropped kept xs ys h e v
GuardStep-Account {h} (GuardStep.exits kept xs ys e) v = exited_once kept xs ys h e v
GuardStep-Account {h} GuardStep.closes v = record {
  hosted = v.hosted;
  fresh = v.fresh;
  flagged = v.flagged;
}

pub GuardReach-Account : {h : Holding} → GuardReach h → Account h
GuardReach-Account unguarded = start-Account
GuardReach-Account (further r s) = GuardStep-Account s (GuardReach-Account r)

-- In every reachable state, a thread that is tracked hosts a guard that is in scope. Whether a thread
-- is tracked or not, a flag that has been given out is unset if one guard owns it, in scope or between
-- the two sections of its drop, and set if none does; no two guards own the same flag, and a flag
-- that has not been given out has no owner.
pub guards_accounted :
    {h : Holding} (t x : ℕ)
    → GuardReach h
    → ((not (contains t h.state.tracker.threads) || hosts t h.held) ≡ true)
      × (sharers x h.held + sharers x h.dropping
          ≡ (if ltb x h.state.next_exit && not (h.state.exited x) then 1 else 0))
guards_accounted {h} t x r =
    let v = GuardReach-Account r in
    (
      ground (arith, v.hosted t),
      elim (dec_lt x h.state.next_exit) [
        | yes below ↦ ground (arith, below, v.flagged x below)
        | no above ↦ ground (arith, above, v.fresh x (omega (arith, above)))
      ],
    )
