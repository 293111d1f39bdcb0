-- ===== src/Manager/Callers/Race.antt =====
-- Two callers of `get_or_create_owner` of src/lib.rs that find the same dead owner.
use ulockmgr.Prelude.{
  ℕ, ◌+◌, ◌≡◌, ◌≢◌, refl, true, false, none, some, inl, inr, arith, List, [], ◌∷◌, ◌++◌, ◌&&◌,
  Bool-cases,
}
use ulockmgr.Prelude.Assoc.{get, insert, remove, get-insert, get-remove}
use ulockmgr.Messages.RequestSpawnOwner.{Duration}
use ulockmgr.Manager.Owners.{is_zero}
use ulockmgr.Manager.Callers.{
  Call, Caller, looking, removing, finished, Callers, set_alive, Move, Reachable, after,
}

-- A caller finds a dead owner, and is about to remove it.
finds_dead :
    (s : Callers) (id o : ℕ) (ttl : Duration)
    → Reachable s
    → get id s.owners ≡ some o
    → s.alive o ≡ false
    → Reachable (record s {
      callers = removing (record { id = id; ttl = ttl; new_owner = false }) ∷ s.callers;
    })
finds_dead s id o ttl r found dead =
    let c : Call = record { id = id; ttl = ttl; new_owner = false } in
    after (after (after r (Move.calls id ttl)) (Move.finds c o [] s.callers refl found))
      (Move.no_answer c o [] s.callers refl (ground arith) dead)

-- The states before and after a caller gets a new owner.
abbrev with_new : Callers → Call → List Caller → List Caller → Callers
with_new s c ts us = record {
  owners = insert c.id s.next_owner s.owners;
  next_owner = s.next_owner + 1;
  alive = set_alive s.next_owner true s.alive;
  callers = ts ++ finished c.id s.next_owner ∷ us;
}

gets_new :
    (s : Callers) (c : Call) (ts us : List Caller)
    → Reachable s
    → s.callers ≡ ts ++ looking c ∷ us
    → get c.id s.owners ≡ none
    → Reachable (with_new s c ts us)
gets_new s c ts us r e vacant =
    let made = after (after r (Move.misses c ts us e vacant)) (Move.creates c ts us refl vacant) in
    let c' : Call = record c { new_owner = true } in
    elim (Bool-cases (is_zero c.ttl && true)) [
      | inl zero ↦ after made (Move.trusts c' s.next_owner ts us refl zero)
      | inr live ↦ after made (Move.answers c' s.next_owner ts us refl live (ground arith))
    ]

-- Whenever a dead owner stands in the map, two callers can both find it dead, and the second removes
-- the new owner that the first has put in its place: then both have got an owner for the same ID,
-- both owners live, and they differ; only the second stands in the map.
pub two_owners :
    {s : Callers} (id o : ℕ) (ttl : Duration)
    → Reachable s
    → get id s.owners ≡ some o
    → s.alive o ≡ false
    → (t : Callers) × (a : ℕ) × (b : ℕ) × Reachable t
      × (t.callers ≡ finished id b ∷ finished id a ∷ s.callers)
      × (t.alive a ≡ true)
      × (t.alive b ≡ true)
      × (a ≢ b)
      × (get id t.owners ≡ some b)
two_owners {s} id o ttl r found dead =
    let c : Call = record { id = id; ttl = ttl; new_owner = false } in
    let both =
      finds_dead (record s { callers = removing c ∷ s.callers }) id o ttl
        (finds_dead s id o ttl r found dead) found dead in
    let first_removes = after both (Move.removes c (removing c ∷ []) s.callers refl) in
    let first =
      gets_new _ c (removing c ∷ []) s.callers first_removes refl
        (ground (arith, get-remove id id s.owners)) in
    let second_removes =
      after first (Move.removes c [] (finished id s.next_owner ∷ s.callers) refl) in
    let second =
      gets_new _ c [] (finished id s.next_owner ∷ s.callers) second_removes refl
        (ground (arith, get-remove id id (insert id s.next_owner (remove id s.owners)))) in
    (
      _,
      s.next_owner,
      s.next_owner + 1,
      second,
      refl,
      ground arith,
      ground arith,
      (λ e. omega (arith, e)),
      ground (
        arith,
        get-insert id id (s.next_owner + 1)
            (remove id (insert id s.next_owner (remove id s.owners))),
      ),
    )
