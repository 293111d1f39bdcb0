-- ===== src/Manager/Returns.antt =====
-- That `get_or_create_owner` of src/lib.rs returns, and with what, if no other thread of the client
-- uses the map during the call.
use ulockmgr.Prelude.{
  ℕ, zero, suc, ◌≤◌, ◌≡◌, ◌≢◌, ◌∙◌, Bool, false, Option, none, some, ◌⊎◌, arith, [], ◌∷◌, ◌==◌,
  if◌then◌else◌,
}
use ulockmgr.Prelude.Assoc.{get, get-remove}
use ulockmgr.IoError.{IoError, Result, ok, err, Errnos}
use ulockmgr.Messages.Traits.{OwnedFd}
use ulockmgr.Messages.RequestSpawnOwner.{Duration}
use ulockmgr.Manager.Owners.{
  Peers, LockManager, unwrap_or, find_or_spawn, check_owner, owner_loop, get_or_create_owner,
}
use ulockmgr.Manager.Rounds.{
  check_owner_lem, round_ends, round_goes_on, round_fails, failed, usable, dead, round_cases,
}
use ulockmgr.Manager.Live.{IsUsable}

module _ (p : Peers) (n : Errnos) where
  open p use {World, spawn, ping}

  -- A new owner process answers: what the source relies on, since it would start owners for ever.
  abbrev pub NewOwnersAnswer : Type 0
  NewOwnersAnswer =
      (ttl : Duration) (s s' : World) (owner : OwnedFd)
      → spawn ttl s ≡ (ok (owner ∷ []), s')
      → (ping owner s').0 ≡ ok tt

  spawned :
      (id : ℕ) (ttl : Duration) (b b' : Bool) (m m' : LockManager) (w w' : World) (owner : OwnedFd)
      → get id m.owners ≡ none
      → find_or_spawn p n id ttl b m w ≡ (ok (owner, b'), m', w')
      → spawn ttl w ≡ (ok (owner ∷ []), w')
  unfolding find_or_spawn
  spawned id ttl b b' m m' w w' owner vacant e = ground arith

  answers-alive :
      (id : ℕ) (ttl : Duration) (owner : OwnedFd) (b : Bool) (m m' : LockManager) (w w' : World)
      → (ping owner w).0 ≡ ok tt
      → check_owner p n id ttl owner b m w ≢ (false, m', w')
  unfolding check_owner
  answers-alive id ttl owner b m m' w w' a e = ground arith

  vacant_ends :
      (fuel id : ℕ) (ttl : Duration) (b : Bool) (m : LockManager) (w : World)
      → NewOwnersAnswer
      → get id m.owners ≡ none
      → (r : Result OwnedFd IoError × LockManager × World) × (owner_loop p n (suc fuel) id ttl b m w
          ≡ some r)
  vacant_ends fuel id ttl b m w answer vacant = elim (round_cases p n id ttl b m w) [
    | failed x m₁ w₁ q ↦ ((err x, m₁, w₁), round_fails p n fuel id ttl b m m₁ w w₁ x q)
    | usable b' m₁ m₂ w₁ w₂ o q c ↦
        ((ok o, m₂, w₂), round_ends p n fuel id ttl b b' m m₁ m₂ w w₁ w₂ o q c)
    | dead b' m₁ m₂ w₁ w₂ o q c ↦
        let made = spawned id ttl b b' m m₁ w w₁ o vacant q in
        absurd (answers-alive id ttl o b' m₁ m₂ w₁ w₂ (answer ttl w w₁ o made) c)
  ]

  dead_vacant :
      (id : ℕ) (ttl : Duration) (owner : OwnedFd) (b : Bool) (m m' : LockManager) (w w' : World)
      → check_owner p n id ttl owner b m w ≡ (false, m', w')
      → get id m'.owners ≡ none
  dead_vacant id ttl owner b m m' w w' c =
      ground
        (arith, check_owner_lem p n id ttl owner b false m m' w w' c, get-remove id id m.owners)

  -- If new owner processes answer and no other thread uses the map meanwhile, a call ends within two
  -- rounds: at most one dead owner is found and replaced.
  pub get_or_create_owner_ends :
      (fuel id : ℕ) (ttl : Option Duration) (m : LockManager) (w : World)
      → NewOwnersAnswer
      → 2 ≤ fuel
      → (r : Result OwnedFd IoError × LockManager × World) × (get_or_create_owner p n fuel id ttl m
            w
          ≡ some r)
  unfolding get_or_create_owner
  get_or_create_owner_ends zero id ttl m w answer lt = absurd (omega arith)
  get_or_create_owner_ends (suc zero) id ttl m w answer lt = absurd (omega arith)
  get_or_create_owner_ends (suc (suc fuel)) id ttl m w answer lt =
      let t : Duration = unwrap_or ttl m.ttl in
      elim (round_cases p n id t false m w) [
        | failed x m₁ w₁ q ↦ ((err x, m₁, w₁), round_fails p n (suc fuel) id t false m m₁ w w₁ x q)
        | usable b' m₁ m₂ w₁ w₂ o q c ↦
            ((ok o, m₂, w₂), round_ends p n (suc fuel) id t false b' m m₁ m₂ w w₁ w₂ o q c)
        | dead b' m₁ m₂ w₁ w₂ o q c ↦
            let (r, e) =
              vacant_ends fuel id t b' m₂ w₂ answer (dead_vacant id t o b' m₁ m₂ w₁ w₂ c) in
            (r, round_goes_on p n (suc fuel) id t false b' m m₁ m₂ w w₁ w₂ o q c ∙ e)
      ]

  -- What the call leaves: an owner that can be used and stands under the ID, or an error and no owner
  -- under it; the owners of all other IDs stay.
  abbrev pub Answered :
      ℕ → Duration → LockManager → Result OwnedFd IoError → LockManager → World → Type 0
  Answered id ttl m r m' w' =
      ((owner : OwnedFd) × (r ≡ ok owner)
        × ((j : ℕ) → get j m'.owners ≡ (if id == j then some owner else get j m.owners))
        × IsUsable p n ttl owner w')
      ⊎ ((e : IoError) × (r ≡ err e)
          × ((j : ℕ) → get j m'.owners ≡ (if id == j then none else get j m.owners)))
