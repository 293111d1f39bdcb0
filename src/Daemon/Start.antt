-- ===== src/Daemon/Start.antt =====
-- `DaemonOwner::start` of src/owner.rs: the loop that ends the process when it is not in use.
use ulockmgr.Prelude.{
  ◌≡◌, ◌≢◌, refl, Bool, true, false, Option, none, some, inl, inr, ◌⊎◌, arith, List, [], ◌∷◌, ◌++◌,
  ◌||◌, if◌then◌else◌,
}
use ulockmgr.IoError.{IoError, custom, other, Result, ok, err}
use ulockmgr.Daemon.State.{DaemonOwnerInner, try_exit}

-- What `recv_timeout` gave.
pub data RecvTimeout : Type 0 where
  refreshed timeout disconnected : RecvTimeout

-- What joining the thread of the command loop gives: its result, or a panic.
pub data Joined : Type 0 where
  result : Result (Unit {0}) IoError → Joined
  panicked : Joined

-- One round: what is received, whether the command loop is finished, what joining it gives, and
-- the shared state when it is looked at.
pub record Tick : Type 0 where
  pub received : RecvTimeout
  pub finished : Bool
  pub joined : Joined
  pub inner : DaemonOwnerInner

abbrev pub join : Joined → Result (Unit {0}) IoError
join (result r) = r
join panicked = err (custom other)

abbrev pub is_disconnected : RecvTimeout → Bool
is_disconnected disconnected = true
is_disconnected _ = false

abbrev pub is_refreshed : RecvTimeout → Bool
is_refreshed refreshed = true
is_refreshed _ = false

-- One round: `none` is to go on.
unfoldable pub tick : Tick → Option (Result (Unit {0}) IoError)
unfolding try_exit
tick t =
    if is_refreshed t.received
    then none
    else if t.finished || is_disconnected t.received
    then some (join t.joined)
    else elim (try_exit t.inner).0 [ ok _ ↦ some (ok tt) | err _ ↦ none ]

-- `none`: the rounds given are over, and the process lives.
unfoldable pub start : List Tick → Option (Result (Unit {0}) IoError)
start [] = none
start (t ∷ ts) = let rest = start ts in elim (tick t) [ none ↦ rest | some r ↦ some r ]

-- The owner is in use in a round, as far as the loop can see: a request has come, or its thread
-- runs while a file is registered.
abbrev pub IsUsed : Tick → Type 0
IsUsed t =
    (t.received ≡ refreshed)
    ⊎ ((t.received ≡ timeout) × (t.finished ≡ false) × (t.inner.readers ≢ 0))

abbrev pub AllUsed : List Tick → Type 0
AllUsed [] = Unit
AllUsed (t ∷ ts) = IsUsed t × AllUsed ts

tick-used : (t : Tick) → IsUsed t → tick t ≡ none
unfolding tick
tick-used t (inl e) = rw (e, tick)
tick-used t (inr (e, f, busy)) = ground arith

tick-idle :
    (t : Tick)
    → t.received ≡ timeout
    → t.finished ≡ false
    → t.inner.readers ≡ 0
    → tick t ≡ some (ok tt)
unfolding tick
tick-idle t e f idle = ground arith

-- The owner lives on through any number of rounds in which it is in use, and exits in the first
-- round after them that times out with its thread running and no file registered.
pub start_exits_unused :
    (used : List Tick) (t : Tick) (later : List Tick)
    → AllUsed used
    → t.received ≡ timeout
    → t.finished ≡ false
    → t.inner.readers ≡ 0
    → (start used ≡ none) × (start (used ++ t ∷ later) ≡ some (ok tt))
unfolding start
start_exits_unused [] t later a e f idle = (refl, rw (tick-idle t e f idle, start))
start_exits_unused (u ∷ us) t later a e f idle =
    let (alive, exits) = start_exits_unused us t later a.1 e f idle in
    ground (arith, alive, exits, tick-used u a.0)
