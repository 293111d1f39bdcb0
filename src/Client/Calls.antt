-- ===== src/Client/Calls.antt =====
-- `RawLockable` of src/owner.rs, the calls with one answer: `get_lock`, `set_lock_nonblocking`.
-- The first argument is what blocking the signals gave, the second what `send_request` returned.
use ulockmgr.Prelude.{ℕ}
use ulockmgr.IoError.{IoError, os, custom, invalid_data, Result, ok, err, map_err, ◌>>=◌}
use ulockmgr.Types.{LockParams}
use ulockmgr.Messages.LockCommand.{ReplyLockCommandData, pending, done}

-- `FetchedReplyResult`: the outer error is the transport's, the inner one the server's.
abbrev pub FetchedReplyResult : Type 0 → Type 0
FetchedReplyResult T = Result (Result T IoError) IoError

-- `??` on the answer to a request.
abbrev pub flatten : {T : Type 0} → FetchedReplyResult T → Result T IoError
flatten r = r >>= λ x. x

-- What `ReplyIterator::next` makes of a reply that it could decode: an error number of the server
-- is an operating system error.
unfoldable pub received : {T : Type 0} → Result T ℕ → FetchedReplyResult T
received r = ok (map_err os r)

unfoldable pub expect_done : ReplyLockCommandData → Result LockParams IoError
expect_done (done params) = ok params
expect_done (pending _) = err (custom invalid_data)

unfoldable pub get_lock :
    Result (Unit {0}) IoError → FetchedReplyResult ReplyLockCommandData → Result LockParams IoError
unfolding expect_done
get_lock mask answer = mask >>= λ _. answer >>= λ r. r >>= expect_done

unfoldable pub set_lock_nonblocking :
    Result (Unit {0}) IoError → FetchedReplyResult ReplyLockCommandData → Result LockParams IoError
unfolding expect_done
set_lock_nonblocking mask answer = mask >>= λ _. answer >>= λ r. r >>= expect_done
