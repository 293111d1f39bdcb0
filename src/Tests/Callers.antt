-- ===== src/Tests/Callers.antt =====
-- Two callers that ask for the owner of ID 7, and an owner that dies.
use ulockmgr.Prelude.{ℕ, ◌≡◌, ◌≢◌, refl, true, false, some, [], ◌∷◌, arith}
use ulockmgr.Prelude.Assoc.{get}
use ulockmgr.Messages.RequestSpawnOwner.{Duration}
use ulockmgr.Manager.Callers.Alone.{is_checking, FinishesWithin, caller_finishes}
use ulockmgr.Manager.Callers.{
  Call, entering, checking, finished, Callers, set_alive, Move, Reachable, at_start, after,
}
use ulockmgr.Manager.Callers.Agree.{AllLive, callers_agree}
use ulockmgr.Manager.Callers.Race.{two_owners}

abbrev five_seconds : Duration
five_seconds = record { secs = 5; nanos = 0 }

abbrev asks : Call
asks = record { id = 7; ttl = five_seconds; new_owner = false }

abbrev made : Call
made = record { id = 7; ttl = five_seconds; new_owner = true }

abbrev one_owner : Callers
one_owner = record {
  owners = (7, 0) ∷ [];
  next_owner = 1;
  alive = set_alive 0 true (λ _. false);
  callers = finished 7 0 ∷ [];
}

one_owner-Reachable : Reachable one_owner
unfolding get
one_owner-Reachable =
    after
      (after (after (after at_start (Move.calls 7 five_seconds)) (Move.misses asks [] [] refl refl))
        (Move.creates asks [] [] refl refl))
      (Move.answers made 0 [] [] refl refl refl)

abbrev both_served : Callers
both_served = record one_owner { callers = finished 7 0 ∷ finished 7 0 ∷ [] }

both_served-Reachable : Reachable both_served
unfolding get
both_served-Reachable =
    after
      (after (after one_owner-Reachable (Move.calls 7 five_seconds))
        (Move.finds asks 0 [] (finished 7 0 ∷ []) refl refl))
      (Move.answers asks 0 [] (finished 7 0 ∷ []) refl refl refl)

both_served-AllLive : AllLive both_served
both_served-AllLive o lt = ground arith

callers_agree_example : (◌≡◌ {A = ℕ} 0 0) × (get 7 both_served.owners ≡ some 0)
callers_agree_example =
    callers_agree 7 0 0 [] (finished 7 0 ∷ []) (finished 7 0 ∷ []) [] both_served-Reachable
      both_served-AllLive refl refl

abbrev owner_dead : Callers
owner_dead = record one_owner { alive = set_alive 0 false (set_alive 0 true (λ _. false)) }

owner_dead-Reachable : Reachable owner_dead
owner_dead-Reachable = after one_owner-Reachable (Move.dies 0 (omega arith))

two_owners_example :
    (t : Callers) × (a : ℕ) × (b : ℕ) × Reachable t
    × (t.callers ≡ finished 7 b ∷ finished 7 a ∷ finished 7 0 ∷ [])
    × (t.alive a ≡ true)
    × (t.alive b ≡ true)
    × (a ≢ b)
    × (get 7 t.owners ≡ some b)
two_owners_example = two_owners 7 0 five_seconds owner_dead-Reachable (unfold get in refl) refl

-- It has found the owner that is dead, while another caller stands before its entry.
abbrev found_dead : Callers
found_dead = record owner_dead { callers = entering asks ∷ checking asks 0 ∷ finished 7 0 ∷ [] }

caller_finishes_example : FinishesWithin asks (entering asks ∷ []) (finished 7 0 ∷ []) 6 found_dead
caller_finishes_example =
    caller_finishes asks (entering asks ∷ []) (finished 7 0 ∷ []) (checking asks 0) found_dead
      (is_checking 0) refl
