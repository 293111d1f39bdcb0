-- ===== src/Manager/Live.antt =====
-- What `get_or_create_owner` of src/lib.rs gives, if no other thread of the client uses the map
-- during the call. Manager/Callers has the calls of several threads.
use ulockmgr.Prelude.{
  ℕ, zero, suc, ◌≡◌, sym, ◌∙◌, Bool, true, false, Option, some, inl, inr, ◌⊎◌, arith, [], ◌∷◌, ◌&&◌,
  ◌==◌, if◌then◌else◌,
}
use ulockmgr.Prelude.Assoc.{get, get-remove}
use ulockmgr.IoError.{ok, Errnos}
use ulockmgr.Messages.Traits.{OwnedFd}
use ulockmgr.Messages.RequestSpawnOwner.{Duration}
use ulockmgr.Manager.Owners.{
  Peers, LockManager, is_zero, unwrap_or, find_or_spawn, check_owner, owner_loop,
  get_or_create_owner,
}
use ulockmgr.Manager.Rounds.{
  find_or_spawn_lem, check_owner_lem, round_ends, round_goes_on, round_fails, failed, usable, dead,
  round_cases,
}

module _ (p : Peers) (n : Errnos) where
  open p use {World, spawn, ping}

  -- How an owner has shown that it can be used: it has answered a ping last, or it was to live for
  -- no time and has just been made.
  abbrev pub IsUsable : Duration → OwnedFd → World → Type 0
  IsUsable ttl owner w =
      ((s : World) × (ping owner s ≡ (ok tt, w)))
      ⊎ ((is_zero ttl ≡ true) × ((s : World) × (spawn ttl s ≡ (ok (owner ∷ []), w))))

  Gives : ℕ → Duration → LockManager → OwnedFd → LockManager → World → Type 0
  Gives id ttl m owner m' w' =
      ((j : ℕ) → get j m'.owners ≡ (if id == j then some owner else get j m.owners))
      × IsUsable ttl owner w'

  usable-IsUsable :
      (id : ℕ) (ttl : Duration) (b b' : Bool) (m m₁ m₂ : LockManager) (w w₁ w₂ : World)
      (owner : OwnedFd)
      → (is_zero ttl && b) ≡ false
      → find_or_spawn p n id ttl b m w ≡ (ok (owner, b'), m₁, w₁)
      → check_owner p n id ttl owner b' m₁ w₁ ≡ (true, m₂, w₂)
      → Gives id ttl m owner m₂ w₂
  unfolding Gives
  usable-IsUsable id ttl b b' m m₁ m₂ w w₁ w₂ owner z q c =
      let (entries, origin) = find_or_spawn_lem p n id ttl b b' m m₁ w w₁ owner q in
      let checked = check_owner_lem p n id ttl owner b' true m₁ m₂ w₁ w₂ c in
      (
        λ j. ground (arith, entries j, checked),
        elim checked [
          | inr (no_end, _, _) ↦ absurd (cc)
          | inl (_, _, inr answered) ↦ inl (w₁, answered)
          | inl (_, _, inl (zero_ttl, is_new, same)) ↦ elim origin [
            | inl old ↦ absurd (ground arith)
            | inr made ↦ inr (zero_ttl, (w, rw same made))
          ]
        ],
      )

  removed-Gives :
      (id : ℕ) (ttl : Duration) (b b' : Bool) (m m₁ m₂ m' : LockManager) (w w₁ w₂ w' : World)
      (dead_owner owner : OwnedFd)
      → find_or_spawn p n id ttl b m w ≡ (ok (dead_owner, b'), m₁, w₁)
      → check_owner p n id ttl dead_owner b' m₁ w₁ ≡ (false, m₂, w₂)
      → Gives id ttl m₂ owner m' w'
      → Gives id ttl m owner m' w'
  unfolding Gives
  removed-Gives id ttl b b' m m₁ m₂ m' w w₁ w₂ w' dead_owner owner q c (entries, shown) =
      let (kept, _) = find_or_spawn_lem p n id ttl b b' m m₁ w w₁ dead_owner q in
      let checked = check_owner_lem p n id ttl dead_owner b' false m₁ m₂ w₁ w₂ c in
      (λ j. ground (arith, entries j, kept j, checked, get-remove id j m₁.owners), shown)

  not_final :
      (id : ℕ) (ttl : Duration) (b : Bool) (m m₂ : LockManager) (w w₂ : World) (owner : OwnedFd)
      → check_owner p n id ttl owner b m w ≡ (false, m₂, w₂)
      → (is_zero ttl && b) ≡ false
  not_final id ttl b m m₂ w w₂ owner c =
      ground (arith, check_owner_lem p n id ttl owner b false m m₂ w w₂ c)

  owner_loop_lem :
      (fuel id : ℕ) (ttl : Duration) (b : Bool) (m m' : LockManager) (w w' : World)
      (owner : OwnedFd)
      → (is_zero ttl && b) ≡ false
      → owner_loop p n fuel id ttl b m w ≡ some (ok owner, m', w')
      → Gives id ttl m owner m' w'
  owner_loop_lem zero id ttl b m m' w w' owner z e = absurd (unfold owner_loop in ground arith)
  owner_loop_lem (suc fuel) id ttl b m m' w w' owner z e = elim (round_cases p n id ttl b m w) [
    | failed x m₁ w₁ q ↦ absurd (ground (arith, round_fails p n fuel id ttl b m m₁ w w₁ x q))
    | usable b' m₁ m₂ w₁ w₂ o q c ↦
        let same = round_ends p n fuel id ttl b b' m m₁ m₂ w w₁ w₂ o q c in
        let e_owner : o ≡ owner = ground (arith, same) in
        let e_manager : m₂ ≡ m' = ground (arith, same) in
        let e_world : w₂ ≡ w' = ground (arith, same) in
        rw (← e_owner, ← e_manager, ← e_world) (usable-IsUsable id ttl b b' m m₁ m₂ w w₁ w₂ o z q c)
    | dead b' m₁ m₂ w₁ w₂ o q c ↦ removed-Gives id ttl b b' m m₁ m₂ m' w w₁ w₂ w' o owner q c (
        owner_loop_lem fuel id ttl b' m₂ m' w₂ w' owner (not_final id ttl b' m₁ m₂ w₁ w₂ o c)
          (sym (round_goes_on p n fuel id ttl b b' m m₁ m₂ w w₁ w₂ o q c) ∙ e))
  ]

  -- An owner that a call of `get_or_create_owner` returns stands in the map under its ID and can be used, and
  -- the owners of all other IDs are left as they were, if no other thread uses the map meanwhile.
  pub get_or_create_owner-IsUsable :
      (fuel id : ℕ) (ttl : Option Duration) (m m' : LockManager) (w w' : World) (owner : OwnedFd)
      → get_or_create_owner p n fuel id ttl m w ≡ some (ok owner, m', w')
      → ((j : ℕ) → get j m'.owners ≡ (if id == j then some owner else get j m.owners))
        × IsUsable (unwrap_or ttl m.ttl) owner w'
  unfolding get_or_create_owner Gives
  get_or_create_owner-IsUsable fuel id ttl m m' w w' owner e =
      owner_loop_lem fuel id (unwrap_or ttl m.ttl) false m m' w w' owner (ground arith) e
