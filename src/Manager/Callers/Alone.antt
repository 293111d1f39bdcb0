-- ===== src/Manager/Callers/Alone.antt =====
-- A caller of `get_or_create_owner` of src/lib.rs that is left alone, wherever the other threads
-- have stopped.
use ulockmgr.Prelude.{
  ℕ, zero, suc, ◌+◌, ◌≤◌, ◌≡◌, ◌≢◌, refl, inl, inr, ◌⊎◌, true, false, none, arith, List, ◌∷◌, ◌++◌,
  ◌==◌, ◌&&◌, if◌then◌else◌, Bool-cases, Option-cases,
}
use ulockmgr.Prelude.Assoc.{get, insert, remove, get-insert, get-remove}
use ulockmgr.Manager.Owners.{is_zero}
use ulockmgr.Manager.Callers.{
  Call, Caller, looking, entering, checking, removing, finished, Callers, set_alive, Move,
}

-- A move of the one caller that stands after `ts` and before `us`, which brings it further: no move of
-- another caller or of the cleanup thread, no new call, and no end of an owner process.
abbrev pub OwnMove : (ts us : List Caller) → Callers → Callers → Type 0
OwnMove ts us s t =
    (x : Caller) × (y : Caller) × (s.callers ≡ ts ++ x ∷ us)
    × (t.callers ≡ ts ++ y ∷ us)
    × (x ≢ y)
    × Move s t

-- So many of them.
pub data Moves (ts us : List Caller) : ℕ → Callers → Callers → Type 0 where
  stays : {s : Callers} → Moves ts us zero s s
  moves :
      {i : ℕ} {s t u : Callers} → OwnMove ts us s t → Moves ts us i t u → Moves ts us (suc i) s u

-- A call that is going on.
pub data IsCalling (c : Call) : Caller → Type 0 where
  is_looking : IsCalling c (looking c)
  is_entering : IsCalling c (entering c)
  is_checking : (o : ℕ) → IsCalling c (checking c o)
  is_removing : IsCalling c (removing c)

-- What a caller that is left alone changes: the entry of its ID, and at most one owner is new.
abbrev pub Kept : Call → Callers → Callers → Type 0
Kept c s t =
    (t.next_owner ≤ s.next_owner + 1)
    × ((j : ℕ) → t.alive j ≡ (if s.next_owner == j then t.alive j else s.alive j))
    × ((j : ℕ) → get j t.owners ≡ (if c.id == j then get c.id t.owners else get j s.owners))

abbrev pub Finishes : ℕ → Call → (ts us : List Caller) → Callers → Type 0
Finishes i c ts us s =
    (t : Callers) × (o : ℕ) × Moves ts us i s t
    × (t.callers ≡ ts ++ finished c.id o ∷ us)
    × ((t.alive o ≡ true) ⊎ (is_zero c.ttl ≡ true))
    × Kept c s t

module _ (c : Call) (ts us : List Caller) where
  -- A move that makes no owner, and one of its own after it.
  onward :
      {i : ℕ} {s s' : Callers}
      → OwnMove ts us s s'
      → s'.next_owner ≡ s.next_owner
      → s'.alive ≡ s.alive
      → ((j : ℕ) → get j s'.owners ≡ (if c.id == j then get c.id s'.owners else get j s.owners))
      → Finishes i c ts us s'
      → Finishes (suc i) c ts us s
  onward {i} {s} {s'} m made lives entries (t, o, path, done, shown, (few, same, kept)) = (
    t,
    o,
    moves m path,
    done,
    shown,
    (
      ground (arith, few, made),
      λ j. rw (← made, ← lives) (same j),
      λ j. ground (arith, kept j, entries j),
    ),
  )

  itself :
      (s : Callers) (j : ℕ)
      → get j s.owners ≡ (if c.id == j then get c.id s.owners else get j s.owners)
  itself s j = elim (Bool-cases (c.id == j)) [
    | inl e ↦ let same : c.id ≡ j = ground arith in rw (e, same) refl
    | inr e ↦ rw e refl
  ]

  trusted-Finishes :
      (o : ℕ) (s : Callers)
      → s.callers ≡ ts ++ checking c o ∷ us
      → (is_zero c.ttl && c.new_owner) ≡ true
      → Finishes 1 c ts us s
  trusted-Finishes o s e trusted = (
    record s { callers = ts ++ finished c.id o ∷ us },
    o,
    moves (checking c o, finished c.id o, e, refl, λ q. cc, Move.trusts c o ts us e trusted) stays,
    refl,
    inr (ground arith),
    (omega arith, λ j. ground arith, itself s),
  )

  alive-Finishes :
      (o : ℕ) (s : Callers)
      → s.callers ≡ ts ++ checking c o ∷ us
      → s.alive o ≡ true
      → Finishes 1 c ts us s
  alive-Finishes o s e alive = elim (Bool-cases (is_zero c.ttl && c.new_owner)) [
    | inl trusted ↦ trusted-Finishes o s e trusted
    | inr asked ↦ (
      record s { callers = ts ++ finished c.id o ∷ us },
      o,
      moves (checking c o, finished c.id o, e, refl, λ q. cc, Move.answers c o ts us e asked alive)
          stays,
      refl,
      inl alive,
      (omega arith, λ j. ground arith, itself s),
    )
  ]

  abbrev created : Callers → Caller → Callers
  created s x = record {
    owners = insert c.id s.next_owner s.owners;
    next_owner = s.next_owner + 1;
    alive = set_alive s.next_owner true s.alive;
    callers = ts ++ x ∷ us;
  }

  created-Kept : (s : Callers) (x : Caller) → Kept c s (created s x)
  created-Kept s x = (
    omega arith,
    λ j. ground arith,
    λ j. ground (
      arith,
      get-insert c.id j s.next_owner s.owners,
      get-insert c.id c.id s.next_owner s.owners,
    ),
  )

  entering-Finishes :
      (s : Callers)
      → s.callers ≡ ts ++ entering c ∷ us
      → get c.id s.owners ≡ none
      → Finishes 2 c ts us s
  entering-Finishes s e vacant =
      let own : Call = record c { new_owner = true } in
      let s₁ : Callers = created s (checking own s.next_owner) in
      let lives : set_alive s.next_owner true s.alive s.next_owner ≡ true = ground arith in
      let ends : Move s₁ (created s (finished c.id s.next_owner)) =
        elim (Bool-cases (is_zero c.ttl && true)) [
          | inl trusted ↦ Move.trusts own s.next_owner ts us refl trusted
          | inr asked ↦ Move.answers own s.next_owner ts us refl asked lives
        ] in
      (
        created s (finished c.id s.next_owner),
        s.next_owner,
        moves
            (entering c, checking own s.next_owner, e, refl, λ q. cc, Move.creates c ts us e vacant)
            (moves
              (checking own s.next_owner, finished c.id s.next_owner, refl, refl, λ q. cc, ends)
              stays),
        refl,
        inl lives,
        created-Kept s (finished c.id s.next_owner),
      )

  looking-Finishes :
      (s : Callers)
      → s.callers ≡ ts ++ looking c ∷ us
      → get c.id s.owners ≡ none
      → Finishes 3 c ts us s
  looking-Finishes s e vacant =
      let s₁ : Callers = record s { callers = ts ++ entering c ∷ us } in
      onward (looking c, entering c, e, refl, λ q. cc, Move.misses c ts us e vacant) refl refl
        (itself s) (entering-Finishes s₁ refl vacant)

  removing-Finishes : (s : Callers) → s.callers ≡ ts ++ removing c ∷ us → Finishes 4 c ts us s
  removing-Finishes s e =
      let s₁ : Callers = record s {
        owners = remove c.id s.owners;
        callers = ts ++ looking c ∷ us;
      } in
      onward (removing c, looking c, e, refl, λ q. cc, Move.removes c ts us e) refl refl
        (λ j. ground (arith, get-remove c.id j s.owners, get-remove c.id c.id s.owners))
        (looking-Finishes s₁ refl (ground (arith, get-remove c.id c.id s.owners)))

  dead-Finishes :
      (o : ℕ) (s : Callers)
      → s.callers ≡ ts ++ checking c o ∷ us
      → (is_zero c.ttl && c.new_owner) ≡ false
      → s.alive o ≡ false
      → Finishes 5 c ts us s
  dead-Finishes o s e asked dead =
      let s₁ : Callers = record s { callers = ts ++ removing c ∷ us } in
      onward (checking c o, removing c, e, refl, λ q. cc, Move.no_answer c o ts us e asked dead)
        refl refl (itself s) (removing-Finishes s₁ refl)

  -- At most so many moves.
  abbrev pub FinishesWithin : ℕ → Callers → Type 0
  FinishesWithin most s = (i : ℕ) × (i ≤ most) × Finishes i c ts us s

  checking_finishes :
      (o : ℕ) (s : Callers) → s.callers ≡ ts ++ checking c o ∷ us → FinishesWithin 5 s
  checking_finishes o s e = elim (Bool-cases (s.alive o)) [
    | inl alive ↦ (1, omega arith, alive-Finishes o s e alive)
    | inr dead ↦ elim (Bool-cases (is_zero c.ttl && c.new_owner)) [
      | inl trusted ↦ (1, omega arith, trusted-Finishes o s e trusted)
      | inr asked ↦ (5, omega arith, dead-Finishes o s e asked dead)
    ]
  ]

  one_more :
      {s s' : Callers}
      → OwnMove ts us s s'
      → s'.owners ≡ s.owners
      → s'.next_owner ≡ s.next_owner
      → s'.alive ≡ s.alive
      → FinishesWithin 5 s'
      → FinishesWithin 6 s
  one_more {s} {s'} m owners made lives (i, le, f) =
      (suc i, omega (arith, le), onward m made lives (λ j. rw owners (itself s j)) f)

  -- From every state of a client's threads, wherever they stand and whichever owners are dead, a call of
  -- `get_or_create_owner` that has begun can return by at most six moves of its own, each an access
  -- to the map or a request, if the coordinator starts an owner where one is asked for: no other
  -- caller or cleanup thread moves and no owner process ends meanwhile. It makes one owner at most,
  -- touches only the entry of its ID, and returns an owner that lives, unless the time-to-live that it
  -- was called with is zero.
  pub caller_finishes :
      (x : Caller) (s : Callers) → IsCalling c x → s.callers ≡ ts ++ x ∷ us → FinishesWithin 6 s
  caller_finishes _ s is_looking e = elim (Option-cases (get c.id s.owners)) [
    | inl vacant ↦ (3, omega arith, looking-Finishes s e vacant)
    | inr (o, found) ↦
        one_more (looking c, checking c o, e, refl, λ q. cc, Move.finds c o ts us e found) refl refl
          refl (checking_finishes o _ refl)
  ]
  caller_finishes _ s is_entering e = elim (Option-cases (get c.id s.owners)) [
    | inl vacant ↦ (2, omega arith, entering-Finishes s e vacant)
    | inr (o, found) ↦
        one_more (entering c, checking c o, e, refl, λ q. cc, Move.comes_second c o ts us e found)
          refl refl refl (checking_finishes o _ refl)
  ]
  caller_finishes _ s (is_checking o) e =
      let (i, le, f) = checking_finishes o s e in (i, omega (arith, le), f)
  caller_finishes _ s is_removing e = (4, omega arith, removing-Finishes s e)
