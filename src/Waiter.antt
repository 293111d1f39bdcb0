-- ===== src/Waiter.antt =====
-- `Waiter` of src/waiter.rs: wait until a test holds, and pause in between.
-- The answers of the test are given, one for each call of it.
use ulockmgr.Prelude.{
  ℕ, suc, ◌≡◌, refl, ap, ◌∙◌, Bool, true, false, Option, none, some, List, [], ◌∷◌, length,
  if◌then◌else◌,
}
use ulockmgr.Backoff.{Backoff}

-- What the loop does between two calls of the test.
pub data Pause : Type 0 where
  spun snoozed slept : Pause

abbrev after {ℓ} : {A : Type ℓ} → A → Option (List A) → Option (List A)
after a none = none
after a (some xs) = some (a ∷ xs)

module _ (b : Backoff) where
  open b use {State, new, spin, snooze, is_completed}

  -- `none`: the answers given are over, and none has held.
  unfoldable pub spin_from : State → List Bool → Option (List Pause)
  spin_from s [] = none
  spin_from s (true ∷ fs) = some []
  spin_from s (false ∷ fs) =
      after (if is_completed s then slept else spun)
        (spin_from (if is_completed s then s else spin s) fs)

  unfoldable pub spin_wait : List Bool → Option (List Pause)
  unfolding spin_from
  spin_wait fs = spin_from new fs

  unfoldable pub snooze_from : State → List Bool → Option (List Pause)
  snooze_from s [] = none
  snooze_from s (true ∷ fs) = some []
  snooze_from s (false ∷ fs) =
      after (if is_completed s then slept else snoozed)
        (snooze_from (if is_completed s then s else snooze s) fs)

  unfoldable pub snooze_wait : List Bool → Option (List Pause)
  unfolding snooze_from
  snooze_wait fs = snooze_from new fs

abbrev later : Option ℕ → Option ℕ
later none = none
later (some n) = some (suc n)

-- The place of the first answer that holds.
unfoldable pub first_true : List Bool → Option ℕ
first_true [] = none
first_true (true ∷ fs) = some 0
first_true (false ∷ fs) = later (first_true fs)

abbrev pub pauses : Option (List Pause) → Option ℕ
pauses none = none
pauses (some xs) = some (length xs)

pauses-after : (a : Pause) (r : Option (List Pause)) → pauses (after a r) ≡ later (pauses r)
pauses-after a none = refl
pauses-after a (some xs) = refl

module _ (b : Backoff) where
  open b use {State, new, spin, snooze, is_completed}

  spin_from-pauses : (s : State) (fs : List Bool) → pauses (spin_from b s fs) ≡ first_true fs
  unfolding spin_from first_true
  spin_from-pauses s [] = refl
  spin_from-pauses s (true ∷ fs) = refl
  spin_from-pauses s (false ∷ fs) =
      let s' : State = if is_completed s then s else spin s in
      pauses-after (if is_completed s then slept else spun) (spin_from b s' fs)
      ∙ ap later (spin_from-pauses s' fs)

  snooze_from-pauses : (s : State) (fs : List Bool) → pauses (snooze_from b s fs) ≡ first_true fs
  unfolding snooze_from first_true
  snooze_from-pauses s [] = refl
  snooze_from-pauses s (true ∷ fs) = refl
  snooze_from-pauses s (false ∷ fs) =
      let s' : State = if is_completed s then s else snooze s in
      pauses-after (if is_completed s then slept else snoozed) (snooze_from b s' fs)
      ∙ ap later (snooze_from-pauses s' fs)

  -- Both ways of waiting return at the first answer that holds, having paused once after each answer
  -- before it, and wait on where no answer holds, whatever the backoff does.
  pub snooze_wait-spin_wait :
      (fs : List Bool)
      → (pauses (snooze_wait b fs) ≡ first_true fs) × (pauses (spin_wait b fs) ≡ first_true fs)
  unfolding snooze_wait spin_wait
  snooze_wait-spin_wait fs = (snooze_from-pauses new fs, spin_from-pauses new fs)
