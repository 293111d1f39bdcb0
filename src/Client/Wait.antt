-- ===== src/Client/Wait.antt =====
-- `RawLockable::set_lock_blocking` of src/owner.rs: wait for a lock, and pass interrupts on.
-- What the world answers in each round is given; the result comes with the requests sent.
use ulockmgr.Prelude.{ℕ, Bool, true, false, Option, none, some, List, [], ◌∷◌, ◌++◌, if◌then◌else◌}
use ulockmgr.IoError.{
  IoError, ErrorKind, interrupted, custom, invalid_data, broken_pipe, Result, ok, err, Errnos, kind,
}
use ulockmgr.Types.{LockParams}
use ulockmgr.Messages.LockCommand.{ReplyLockCommandData, pending, done}
use ulockmgr.Client.Calls.{FetchedReplyResult}

-- What the client has sent to the owner process.
pub data Sent : Type 0 where
  lock_command : Sent
  interrupt : (id : ℕ) → Sent
  remove_interrupt : (id : ℕ) → Sent

-- One round of the loop: what letting SIGUSR1 through gave (asked only before the first
-- interrupt), what `iterator.next()` gave, and what the request `Interrupt` of this round, if it is
-- made, is answered.
pub record Round : Type 0 where
  pub unblock : Result (Unit {0}) IoError
  pub item : Option (FetchedReplyResult ReplyLockCommandData)
  pub answer : FetchedReplyResult (Unit {0})

abbrev pub is_interrupted : ErrorKind → Bool
is_interrupted interrupted = true
is_interrupted _ = false

-- `??` on the answer of the request `Interrupt`, then the rest of the loop.
unfoldable pub after_interrupt :
    ℕ
    → FetchedReplyResult (Unit {0})
    → Result LockParams IoError × List Sent
    → Result LockParams IoError × List Sent
after_interrupt id (err e) rest = (err e, interrupt id ∷ [])
after_interrupt id (ok (err e)) rest = (err e, interrupt id ∷ [])
after_interrupt id (ok (ok _)) rest = (rest.0, interrupt id ∷ rest.1)

-- The match on the next item; `rest` is the loop after a `continue`.
unfoldable pub on_item :
    Errnos
    → ℕ
    → FetchedReplyResult (Unit {0})
    → Option (FetchedReplyResult ReplyLockCommandData)
    → Result LockParams IoError × List Sent
    → Result LockParams IoError × List Sent
unfolding kind after_interrupt
on_item n id answer none rest = (err (custom broken_pipe), [])
on_item n id answer (some (ok (ok (done params)))) rest = (ok params, [])
on_item n id answer (some (ok (ok (pending _)))) rest = (err (custom invalid_data), [])
on_item n id answer (some (ok (err e))) rest = (err e, [])
on_item n id answer (some (err e)) rest =
    if is_interrupted (kind n e) then after_interrupt id answer rest else (err e, [])

-- The loop, for the interrupt ID and the flag `interrupted`. After the last round the iterator has
-- ended, so `next` gives `None`.
unfoldable pub await : Errnos → ℕ → Bool → List Round → Result LockParams IoError × List Sent
unfolding on_item
await n id was_interrupted [] = (err (custom broken_pipe), [])
await n id was_interrupted (r ∷ rs) =
    let rest = await n id true rs in
    elim (if was_interrupted then ok tt else r.unblock) [
      | err e ↦ (err e, [])
      | ok _ ↦ on_item n id r.answer r.item rest
    ]

-- The match on the first reply. `Interruptable::drop` sends `RemoveInterrupt` on every way out of
-- the loop.
unfoldable pub on_first :
    Errnos
    → Option (FetchedReplyResult ReplyLockCommandData)
    → List Round
    → Result LockParams IoError × List Sent
on_first n none rounds = (err (custom broken_pipe), [])
on_first n (some (err e)) rounds = (err e, [])
on_first n (some (ok (err e))) rounds = (err e, [])
on_first n (some (ok (ok (done params)))) rounds = (ok params, [])
on_first n (some (ok (ok (pending id)))) rounds =
    let (r, sent) = await n id false rounds in (r, sent ++ remove_interrupt id ∷ [])

-- The whole call: blocking the signals, sending the command, the first reply, and the rounds.
unfoldable pub set_lock_blocking :
    Errnos
    → Result (Unit {0}) IoError
    → Result (Unit {0}) IoError
    → Option (FetchedReplyResult ReplyLockCommandData)
    → List Round
    → Result LockParams IoError × List Sent
unfolding on_first
set_lock_blocking n (err e) sending first rounds = (err e, [])
set_lock_blocking n (ok _) (err e) first rounds = (err e, lock_command ∷ [])
set_lock_blocking n (ok _) (ok _) first rounds =
    let (r, sent) = on_first n first rounds in (r, lock_command ∷ sent)
