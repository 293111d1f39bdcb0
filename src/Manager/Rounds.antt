-- ===== src/Manager/Rounds.antt =====
-- One round of the loop of `get_or_create_owner` of src/lib.rs.
use ulockmgr.Prelude.{
  ℕ, suc, ◌≡◌, Bool, true, false, some, inl, inr, ◌⊎◌, arith, [], ◌∷◌, ◌&&◌, ◌==◌, if◌then◌else◌,
  Bool-cases,
}
use ulockmgr.Prelude.Assoc.{Assoc, get, remove, get-insert}
use ulockmgr.IoError.{IoError, Result-cases, ok, err, Errnos}
use ulockmgr.Messages.Traits.{OwnedFd}
use ulockmgr.Messages.RequestSpawnOwner.{Duration}
use ulockmgr.Manager.Owners.{Peers, LockManager, is_zero, find_or_spawn, check_owner, owner_loop}

module _ (p : Peers) (n : Errnos) where
  open p use {World, spawn, ping}

  same_key : (i j : ℕ) (m : Assoc OwnedFd) → (i == j) ≡ true → get i m ≡ get j m
  same_key i j m e = let q : i ≡ j = ground arith in rw q

  pub find_or_spawn_lem :
      (id : ℕ) (ttl : Duration) (b b' : Bool) (m m' : LockManager) (w w' : World) (owner : OwnedFd)
      → find_or_spawn p n id ttl b m w ≡ (ok (owner, b'), m', w')
      → ((j : ℕ) → get j m'.owners ≡ (if id == j then some owner else get j m.owners))
        × ((b' ≡ b) ⊎ (spawn ttl w ≡ (ok (owner ∷ []), w')))
  unfolding find_or_spawn
  find_or_spawn_lem id ttl b b' m m' w w' owner e =
      (λ j. ground (arith, get-insert id j owner m.owners, same_key id j m.owners), ground arith)

  pub check_owner_lem :
      (id : ℕ) (ttl : Duration) (owner : OwnedFd) (b alive : Bool) (m m' : LockManager)
      (w w' : World)
      → check_owner p n id ttl owner b m w ≡ (alive, m', w')
      → ((alive ≡ true)
          × (m'.owners ≡ m.owners)
          × (((is_zero ttl ≡ true) × (b ≡ true) × (w' ≡ w)) ⊎ (ping owner w ≡ (ok tt, w'))))
        ⊎ ((alive ≡ false) × (m'.owners ≡ remove id m.owners) × ((is_zero ttl && b) ≡ false))
  unfolding check_owner
  check_owner_lem id ttl owner b alive m m' w w' e = ground arith

  -- One round of the loop, from what its two parts give.
  pub round_ends :
      (fuel id : ℕ) (ttl : Duration) (b b' : Bool) (m m₁ m₂ : LockManager) (w w₁ w₂ : World)
      (owner : OwnedFd)
      → find_or_spawn p n id ttl b m w ≡ (ok (owner, b'), m₁, w₁)
      → check_owner p n id ttl owner b' m₁ w₁ ≡ (true, m₂, w₂)
      → owner_loop p n (suc fuel) id ttl b m w ≡ some (ok owner, m₂, w₂)
  unfolding owner_loop
  round_ends fuel id ttl b b' m m₁ m₂ w w₁ w₂ owner e c = ground (arith, e, c)

  pub round_goes_on :
      (fuel id : ℕ) (ttl : Duration) (b b' : Bool) (m m₁ m₂ : LockManager) (w w₁ w₂ : World)
      (owner : OwnedFd)
      → find_or_spawn p n id ttl b m w ≡ (ok (owner, b'), m₁, w₁)
      → check_owner p n id ttl owner b' m₁ w₁ ≡ (false, m₂, w₂)
      → owner_loop p n (suc fuel) id ttl b m w ≡ owner_loop p n fuel id ttl b' m₂ w₂
  unfolding owner_loop
  round_goes_on fuel id ttl b b' m m₁ m₂ w w₁ w₂ owner e c = ground (arith, e, c)

  pub round_fails :
      (fuel id : ℕ) (ttl : Duration) (b : Bool) (m m₁ : LockManager) (w w₁ : World) (x : IoError)
      → find_or_spawn p n id ttl b m w ≡ (err x, m₁, w₁)
      → owner_loop p n (suc fuel) id ttl b m w ≡ some (err x, m₁, w₁)
  unfolding owner_loop
  round_fails fuel id ttl b m m₁ w w₁ x e = ground (arith, e)

  -- What a round has found: a failure, a usable owner, or an owner that is dead and removed.
  pub data Round (id : ℕ) (ttl : Duration) (b : Bool) (m : LockManager) (w : World) : Type 0 where
    failed :
        (x : IoError) (m₁ : LockManager) (w₁ : World)
        → find_or_spawn p n id ttl b m w ≡ (err x, m₁, w₁)
        → Round id ttl b m w
    usable :
        (b' : Bool) (m₁ m₂ : LockManager) (w₁ w₂ : World) (owner : OwnedFd)
        → find_or_spawn p n id ttl b m w ≡ (ok (owner, b'), m₁, w₁)
        → check_owner p n id ttl owner b' m₁ w₁ ≡ (true, m₂, w₂)
        → Round id ttl b m w
    dead :
        (b' : Bool) (m₁ m₂ : LockManager) (w₁ w₂ : World) (owner : OwnedFd)
        → find_or_spawn p n id ttl b m w ≡ (ok (owner, b'), m₁, w₁)
        → check_owner p n id ttl owner b' m₁ w₁ ≡ (false, m₂, w₂)
        → Round id ttl b m w

  pub round_cases :
      (id : ℕ) (ttl : Duration) (b : Bool) (m : LockManager) (w : World) → Round id ttl b m w
  round_cases id ttl b m w =
      let f = find_or_spawn p n id ttl b m w in
      elim (Result-cases f.0) [
        | inr (x, e) ↦ failed x f.1 f.2 (ground (arith, e))
        | inl ((owner, b'), e) ↦
            let c = check_owner p n id ttl owner b' f.1 f.2 in
            elim (Bool-cases c.0) [
              | inl q ↦ usable b' f.1 c.1 f.2 c.2 owner (ground (arith, e)) (ground (arith, q))
              | inr q ↦ dead b' f.1 c.1 f.2 c.2 owner (ground (arith, e)) (ground (arith, q))
            ]
      ]
