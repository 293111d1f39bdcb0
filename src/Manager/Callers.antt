-- ===== src/Manager/Callers.antt =====
-- The threads of a client in `get_or_create_owner` of src/lib.rs, interleaved with each other, with its cleanup
-- thread, and with the ends of owner processes.
-- A step is one access to the map, which DashMap makes atomic for a key, or one request. An owner is
-- named by the order in which the owners are made. A ping answers if its owner lives.
pub mod Agree
pub mod Alone
pub mod Race
use ulockmgr.Prelude.{
  ℕ, ◌+◌, ◌<◌, ◌≡◌, Bool, true, false, none, some, List, [], ◌∷◌, ◌++◌, ◌==◌, ◌&&◌, if◌then◌else◌,
}
use ulockmgr.Prelude.Assoc.{Assoc, get, insert, remove}
use ulockmgr.Messages.RequestSpawnOwner.{Duration}
use ulockmgr.Manager.Owners.{is_zero}

-- A call of `get_or_create_owner`: its arguments, and the variable `new_owner`.
pub record Call : Type 0 where
  pub id : ℕ
  pub ttl : Duration
  pub new_owner : Bool

pub data Caller : Type 0 where
  -- At the top of the loop, before `self.owners.get`.
  looking : Call → Caller
  -- No owner was found; before `or_try_insert_with`.
  entering : Call → Caller
  -- Before the ping of an owner.
  checking : Call → (owner : ℕ) → Caller
  -- The ping has failed; before `self.owners.remove`.
  removing : Call → Caller
  finished : (id owner : ℕ) → Caller
  failed : (id : ℕ) → Caller

pub record Callers : Type 0 where
  pub owners : Assoc ℕ
  pub next_owner : ℕ
  pub alive : ℕ → Bool
  pub callers : List Caller

abbrev pub start_callers : Callers
start_callers = record { owners = []; next_owner = 0; alive = λ _. false; callers = [] }

-- An owner process begins, or ends.
abbrev pub set_alive : ℕ → Bool → (ℕ → Bool) → ℕ → Bool
set_alive o b alive j = if o == j then b else alive j

pub data Move (s : Callers) : Callers → Type 0 where
  calls :
      (id : ℕ) (ttl : Duration)
      → Move s (record s {
        callers = looking (record { id = id; ttl = ttl; new_owner = false }) ∷ s.callers;
      })
  finds :
      (c : Call) (o : ℕ) (ts us : List Caller)
      → s.callers ≡ ts ++ looking c ∷ us
      → get c.id s.owners ≡ some o
      → Move s (record s { callers = ts ++ checking c o ∷ us })
  misses :
      (c : Call) (ts us : List Caller)
      → s.callers ≡ ts ++ looking c ∷ us
      → get c.id s.owners ≡ none
      → Move s (record s { callers = ts ++ entering c ∷ us })
  -- Another thread has made an owner in the meantime.
  comes_second :
      (c : Call) (o : ℕ) (ts us : List Caller)
      → s.callers ≡ ts ++ entering c ∷ us
      → get c.id s.owners ≡ some o
      → Move s (record s { callers = ts ++ checking c o ∷ us })
  creates :
      (c : Call) (ts us : List Caller)
      → s.callers ≡ ts ++ entering c ∷ us
      → get c.id s.owners ≡ none
      → Move s (record {
        owners = insert c.id s.next_owner s.owners;
        next_owner = s.next_owner + 1;
        alive = set_alive s.next_owner true s.alive;
        callers = ts ++ checking (record c { new_owner = true }) s.next_owner ∷ us;
      })
  cannot_create :
      (c : Call) (ts us : List Caller)
      → s.callers ≡ ts ++ entering c ∷ us
      → get c.id s.owners ≡ none
      → Move s (record s { callers = ts ++ failed c.id ∷ us })
  -- A new owner with a time-to-live of zero is not asked.
  trusts :
      (c : Call) (o : ℕ) (ts us : List Caller)
      → s.callers ≡ ts ++ checking c o ∷ us
      → (is_zero c.ttl && c.new_owner) ≡ true
      → Move s (record s { callers = ts ++ finished c.id o ∷ us })
  answers :
      (c : Call) (o : ℕ) (ts us : List Caller)
      → s.callers ≡ ts ++ checking c o ∷ us
      → (is_zero c.ttl && c.new_owner) ≡ false
      → s.alive o ≡ true
      → Move s (record s { callers = ts ++ finished c.id o ∷ us })
  no_answer :
      (c : Call) (o : ℕ) (ts us : List Caller)
      → s.callers ≡ ts ++ checking c o ∷ us
      → (is_zero c.ttl && c.new_owner) ≡ false
      → s.alive o ≡ false
      → Move s (record s { callers = ts ++ removing c ∷ us })
  -- Whatever owner stands under the ID by now.
  removes :
      (c : Call) (ts us : List Caller)
      → s.callers ≡ ts ++ removing c ∷ us
      → Move s (record s { owners = remove c.id s.owners; callers = ts ++ looking c ∷ us })
  -- The closure of `retain` in `cleanup_thread`, which pings and removes under the lock of the key.
  cleans :
      (id o : ℕ)
      → get id s.owners ≡ some o
      → s.alive o ≡ false
      → Move s (record s { owners = remove id s.owners })
  -- An owner process ends.
  dies : (o : ℕ) → o < s.next_owner → Move s (record s { alive = set_alive o false s.alive })

pub data Reachable : Callers → Type 0 where
  at_start : Reachable start_callers
  after : {s t : Callers} → Reachable s → Move s t → Reachable t
