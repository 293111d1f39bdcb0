-- ===== src/Manager/Callers/Agree.antt =====
-- What all callers of `get_or_create_owner` of src/lib.rs get while the owner processes live.
use ulockmgr.Prelude.{ℕ, ◌+◌, ◌<◌, ◌≡◌, true, none, some, arith, List, ◌∷◌, ◌++◌}
use ulockmgr.Prelude.Lists.{All, All-map, All-at, All-turn}
use ulockmgr.Prelude.Assoc.{Assoc, get, insert, get-insert, get-remove}
use ulockmgr.Manager.Callers.{
  Call, Caller, looking, entering, checking, removing, finished, failed, Callers, start_callers,
  set_alive, Move, Reachable, at_start, after,
}

-- A caller's owner is the one in the map; and none is being removed.
abbrev Agrees : Assoc ℕ → Caller → Type 0
Agrees m (checking c o) = get c.id m ≡ some o
Agrees m (finished id o) = get id m ≡ some o
Agrees m (removing _) = ⊥
Agrees m (looking _) = Unit
Agrees m (entering _) = Unit
Agrees m (failed _) = Unit

abbrev pub AllLive : Callers → Type 0
AllLive s = (o : ℕ) → o < s.next_owner → s.alive o ≡ true

record Inv (s : Callers) : Type 0 where
  bounded : (id o : ℕ) → get id s.owners ≡ some o → o < s.next_owner
  agrees : AllLive s → All (Agrees s.owners) s.callers

-- A new entry is not that of a caller who has an owner.
Agrees-insert :
    (id o : ℕ) (m : Assoc ℕ)
    → get id m ≡ none
    → (c : Caller) → Agrees m c
    → Agrees (insert id o m) c
Agrees-insert id o m e (checking c p) h = ground (arith, get-insert id c.id o m)
Agrees-insert id o m e (finished j p) h = ground (arith, get-insert id j o m)
Agrees-insert id o m e (removing _) h = h
Agrees-insert id o m e (looking _) h = h
Agrees-insert id o m e (entering _) h = h
Agrees-insert id o m e (failed _) h = h

-- A caller goes on.
turns :
    (s : Callers) (c c' : Caller) (ts us : List Caller)
    → s.callers ≡ ts ++ c ∷ us
    → (Agrees s.owners c → Agrees s.owners c')
    → Inv s
    → Inv (record s { callers = ts ++ c' ∷ us })
turns s c c' ts us e f v = record {
  bounded = v.bounded;
  agrees = λ live.
      let all = rw e at (v.agrees live) in
      All-turn (Agrees s.owners) ts us c c' (f (All-at (Agrees s.owners) ts us c all)) all;
}

created :
    (s : Callers) (c : Call) (ts us : List Caller)
    → s.callers ≡ ts ++ entering c ∷ us
    → get c.id s.owners ≡ none
    → Inv s
    → Inv (record {
      owners = insert c.id s.next_owner s.owners;
      next_owner = s.next_owner + 1;
      alive = set_alive s.next_owner true s.alive;
      callers = ts ++ checking (record c { new_owner = true }) s.next_owner ∷ us;
    })
created s c ts us e vacant v = record {
  bounded = λ id o h. ground (arith, get-insert c.id id s.next_owner s.owners, v.bounded id o, h);
  agrees = λ live.
      let m = insert c.id s.next_owner s.owners in
      let lived : AllLive s = λ o lt. ground (arith, live o (omega arith)) in
      let all =
        All-map (Agrees-insert c.id s.next_owner s.owners vacant) s.callers (v.agrees lived) in
      All-turn (Agrees m) ts us (entering c) (checking (record c { new_owner = true }) s.next_owner)
        (ground (arith, get-insert c.id c.id s.next_owner s.owners)) (rw e at all);
}

Move-Inv : {s t : Callers} → Move s t → Inv s → Inv t
Move-Inv {s} (Move.calls id ttl) v = record {
  bounded = v.bounded;
  agrees = λ live. (tt, v.agrees live);
}
Move-Inv {s} (Move.finds c o ts us e found) v = turns s _ _ ts us e (λ _. found) v
Move-Inv {s} (Move.misses c ts us e _) v = turns s _ _ ts us e (λ _. tt) v
Move-Inv {s} (Move.comes_second c o ts us e found) v = turns s _ _ ts us e (λ _. found) v
Move-Inv {s} (Move.creates c ts us e vacant) v = created s c ts us e vacant v
Move-Inv {s} (Move.cannot_create c ts us e _) v = turns s _ _ ts us e (λ _. tt) v
Move-Inv {s} (Move.trusts c o ts us e _) v = turns s _ _ ts us e (λ h. h) v
Move-Inv {s} (Move.answers c o ts us e _ _) v = turns s _ _ ts us e (λ h. h) v
Move-Inv {s} (Move.no_answer c o ts us e _ dead) v = record {
  bounded = v.bounded;
  agrees = λ live.
      let found = All-at (Agrees s.owners) ts us (checking c o) (rw e at (v.agrees live)) in
      absurd (ground (arith, live o (v.bounded c.id o found), dead));
}
Move-Inv {s} (Move.removes c ts us e) v = record {
  bounded = λ id o h. v.bounded id o (ground (arith, get-remove c.id id s.owners, h));
  agrees = λ live. absurd (All-at (Agrees s.owners) ts us (removing c) (rw e at (v.agrees live)));
}
Move-Inv {s} (Move.cleans id o found dead) v = record {
  bounded = λ j p h. v.bounded j p (ground (arith, get-remove id j s.owners, h));
  agrees = λ live. absurd (ground (arith, live o (v.bounded id o found), dead));
}
Move-Inv {s} (Move.dies o lt) v = record {
  bounded = v.bounded;
  agrees = λ live. absurd (ground (arith, live o lt));
}

start-Inv : Inv start_callers
unfolding get
start-Inv = record { bounded = λ id o h. cc; agrees = λ live. tt }

Reachable-Inv : {s : Callers} → Reachable s → Inv s
Reachable-Inv at_start = start-Inv
Reachable-Inv (after r m) = Move-Inv m (Reachable-Inv r)

-- In every reachable state in which no owner process has ended, all callers that have got an owner for
-- an ID have got the same, and it stands in the map under this ID, in whatever order the callers ran.
pub callers_agree :
    {s : Callers} (id a b : ℕ) (ts us ts' us' : List Caller)
    → Reachable s
    → AllLive s
    → s.callers ≡ ts ++ finished id a ∷ us
    → s.callers ≡ ts' ++ finished id b ∷ us'
    → (a ≡ b) × (get id s.owners ≡ some a)
callers_agree {s} id a b ts us ts' us' r live e e' =
    let all = (Reachable-Inv r).agrees live in
    let p = All-at (Agrees s.owners) ts us (finished id a) (rw e at all) in
    let q = All-at (Agrees s.owners) ts' us' (finished id b) (rw e' at all) in
    (ground (arith, p, q), p)
