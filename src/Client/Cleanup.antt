-- ===== src/Client/Cleanup.antt =====
-- What `RawLockable::set_lock_blocking` of src/owner.rs sends and returns, for every course of events.
use ulockmgr.Prelude.{
  ℕ, zero, suc, ◌≤◌, ◌<◌, ◌≡◌, refl, ap, ◌∙◌, Bool, true, false, Option, none, some, inl, inr,
  arith, List, [], ◌∷◌, ◌++◌, length, if◌then◌else◌, Bool-cases,
}
use ulockmgr.IoError.{IoError, interrupted, Result, Result-cases, ok, err, map_ok, Errnos, kind}
use ulockmgr.Types.{LockParams}
use ulockmgr.Messages.LockCommand.{ReplyLockCommandData, pending, done}
use ulockmgr.Client.Calls.{FetchedReplyResult}
use ulockmgr.Client.Wait.{
  Sent, lock_command, interrupt, remove_interrupt, Round, is_interrupted, after_interrupt, on_item,
  await, set_lock_blocking,
}

-- So many requests to interrupt one lock.
unfoldable pub interrupts : ℕ → ℕ → List Sent
interrupts zero id = []
interrupts (suc m) id = interrupt id ∷ interrupts m id

-- Whether a system call was interrupted, as `next` reports it.
abbrev pub item_interrupted : Errnos → Option (FetchedReplyResult ReplyLockCommandData) → Bool
item_interrupted n none = false
item_interrupted n (some (ok _)) = false
item_interrupted n (some (err e)) = is_interrupted (kind n e)

-- The rounds that are interrupted, from the first on.
unfoldable pub interruptions : Errnos → List Round → ℕ
interruptions n [] = 0
interruptions n (r ∷ rs) = if item_interrupted n r.item then suc (interruptions n rs) else 0

after_interrupt-sends :
    (id m : ℕ) (answer : FetchedReplyResult (Unit {0}))
    (rest : Result LockParams IoError × List Sent)
    → rest.1 ≡ interrupts m id
    → (m' : ℕ) × (m' ≤ suc m) × ((after_interrupt id answer rest).1 ≡ interrupts m' id)
unfolding after_interrupt interrupts
after_interrupt-sends id m (err e) rest q = (1, omega arith, refl)
after_interrupt-sends id m (ok (err e)) rest q = (1, omega arith, refl)
after_interrupt-sends id m (ok (ok _)) rest q = (suc m, omega arith, ap (◌∷◌ (interrupt id)) q)

on_item-sends :
    (n : Errnos) (id m : ℕ) (answer : FetchedReplyResult (Unit {0}))
    (item : Option (FetchedReplyResult ReplyLockCommandData))
    (rest : Result LockParams IoError × List Sent)
    → rest.1 ≡ interrupts m id
    → (m' : ℕ) × (m' ≤ (if item_interrupted n item then suc m else 0))
      × ((on_item n id answer item rest).1 ≡ interrupts m' id)
unfolding on_item interrupts
on_item-sends n id m answer none rest q = (0, omega arith, refl)
on_item-sends n id m answer (some (ok (ok (done params)))) rest q = (0, omega arith, refl)
on_item-sends n id m answer (some (ok (ok (pending _)))) rest q = (0, omega arith, refl)
on_item-sends n id m answer (some (ok (err e))) rest q = (0, omega arith, refl)
on_item-sends n id m answer (some (err e)) rest q = elim (Bool-cases (is_interrupted (kind n e))) [
  | inl yes_it_was ↦
      let (m', le, sent) = after_interrupt-sends id m answer rest q in
      (m', ground arith, ground (arith, sent))
  | inr other_error ↦ (0, ground arith, ground arith)
]

await-sends :
    (n : Errnos) (id : ℕ) (b : Bool) (rounds : List Round)
    → (m : ℕ) × (m ≤ interruptions n rounds) × ((await n id b rounds).1 ≡ interrupts m id)
unfolding await interruptions
await-sends n id b [] = (0, omega arith, unfold interrupts in refl)
await-sends n id b (r ∷ rs) =
    let (m, le, sent) = await-sends n id true rs in
    let (m', le', sent') = on_item-sends n id m r.answer r.item (await n id true rs) sent in
    elim (Result-cases (if b then ok tt else r.unblock)) [
      | inl (_, e) ↦ (m', ground arith, ground (arith, sent'))
      | inr (x, e) ↦ (0, omega arith, unfold interrupts in ground arith)
    ]

-- A wait for a lock that is pending sends the command, then at most one `Interrupt` with the ID of
-- that lock for each interrupted system call, and last `RemoveInterrupt` with the same ID, however
-- it ends.
pub set_lock_blocking_cleans_up :
    (n : Errnos) (id : ℕ) (rounds : List Round)
    → (m : ℕ) × (m ≤ interruptions n rounds)
      × ((set_lock_blocking n (ok tt) (ok tt) (some (ok (ok (pending id)))) rounds).1
          ≡ lock_command ∷ interrupts m id ++ remove_interrupt id ∷ [])
unfolding set_lock_blocking
set_lock_blocking_cleans_up n id rounds =
    let (m, le, sent) = await-sends n id false rounds in (m, le, rw sent)

-- A lock that is granted or refused at once leaves nothing behind: only the command is sent, and
-- the answer is handed on.
pub set_lock_blocking_immediate :
    (n : Errnos) (r : Result LockParams IoError) (rounds : List Round)
    → set_lock_blocking n (ok tt) (ok tt) (some (ok (map_ok done r))) rounds
      ≡ (r, lock_command ∷ [])
unfolding set_lock_blocking
set_lock_blocking_immediate n (ok params) rounds = refl
set_lock_blocking_immediate n (err e) rounds = refl

-- Rounds that are interrupted, with each request to interrupt answered.
abbrev pub AllInterrupted : Errnos → List Round → Type 0
AllInterrupted n [] = Unit
AllInterrupted n (r ∷ rs) =
    (e : IoError) × (kind n e ≡ interrupted)
    × (r.item ≡ some (err e))
    × (r.answer ≡ ok (ok tt))
    × (r.unblock ≡ ok tt)
    × AllInterrupted n rs

await-interrupted :
    (n : Errnos) (id : ℕ) (b : Bool) (i : Round) (rs : List Round) (e : IoError)
    → kind n e ≡ interrupted
    → i.item ≡ some (err e)
    → i.answer ≡ ok (ok tt)
    → i.unblock ≡ ok tt
    → (await n id b (i ∷ rs)).0 ≡ (await n id true rs).0
unfolding await on_item
await-interrupted n id true i rs e k item answer unblock = rw (item, on_item, k, answer)
await-interrupted n id false i rs e k item answer unblock = rw (unblock, item, on_item, k, answer)

-- Interrupted rounds do not decide the outcome: after any number of them the wait goes on, and its
-- result is that of the rounds that follow, with the signal blocked.
pub await_outlasts :
    (n : Errnos) (id : ℕ) (b : Bool) (is rs : List Round)
    → AllInterrupted n is
    → 0 < length is
    → (await n id b (is ++ rs)).0 ≡ (await n id true rs).0
await_outlasts n id b [] rs a p = absurd (omega arith)
await_outlasts n id b (i ∷ []) rs a p = await-interrupted n id b i rs a.0 a.1 a.2 a.3 a.4
await_outlasts n id b (i ∷ j ∷ is) rs a p =
    await-interrupted n id b i (j ∷ is ++ rs) a.0 a.1 a.2 a.3 a.4
    ∙ await_outlasts n id true (j ∷ is) rs a.5 (omega arith)
