-- ===== src/Manager/Register.antt =====
-- What `LockManager::register` of src/lib.rs gives, and what its cleanup thread leaves.
use ulockmgr.Prelude.{
  ℕ, zero, suc, ◌≡◌, none, some, inl, inr, ◌⊎◌, arith, [], ◌∷◌, ◌==◌, if◌then◌else◌, Option-cases,
  Bool-cases,
}
use ulockmgr.Prelude.Assoc.{Assoc, get, Distinct}
use ulockmgr.IoError.{Result-cases, ok, err, Errnos}
use ulockmgr.Messages.Traits.{OwnedFd}
use ulockmgr.Manager.Owners.{
  Peers, LockManager, Lockable, get_or_create_owner, owner_is_gone, register_file, cleanup,
}
use ulockmgr.Manager.Live.{get_or_create_owner-IsUsable}

module _ (p : Peers) (n : Errnos) where
  open p use {World, ping, register}

  found_owner :
      (fuel id : ℕ) (m m' : LockManager) (w w' : World) (owner : OwnedFd)
      → get_or_create_owner p n fuel id none m w ≡ some (ok owner, m', w')
      → (j : ℕ) → get j m'.owners ≡ (if id == j then some owner else get j m.owners)
  found_owner fuel id m m' w w' owner e =
      (get_or_create_owner-IsUsable p n fuel id none m m' w w' owner e).0

  -- A round of `register` that has found an owner: it ends with a registration or an error, or the
  -- owner was gone and the next round begins.
  after_answer :
      (rounds fuel id fd owner : ℕ) (m m₁ m' : LockManager) (w w₁ w' : World) (l : Lockable)
      → get_or_create_owner p n fuel id none m w ≡ some (ok owner, m₁, w₁)
      → register_file p n (suc rounds) fuel id fd m w ≡ some (ok l, m', w')
      → ((l.owner ≡ owner) × (m' ≡ m₁) × (register owner fd w₁ ≡ (ok l.id, w')))
        ⊎ ((w₂ : World) × (register_file p n rounds fuel id fd m₁ w₂ ≡ some (ok l, m', w')))
  unfolding register_file
  after_answer rounds fuel id fd owner m m₁ m' w w₁ w' l found e =
      elim (Result-cases (register owner fd w₁).0) [
        | inl (given, q) ↦
            inl (
              ground (arith, found, e, q),
              ground (arith, found, e, q),
              ground (arith, found, e, q),
            )
        | inr (x, q) ↦ elim (Bool-cases (owner_is_gone p n owner x (register owner fd w₁).1).0) [
          | inl gone ↦ inr (
            (owner_is_gone p n owner x (register owner fd w₁).1).1,
            ground (arith, found, e, q, gone),
          )
          | inr alive ↦ absurd (ground (arith, found, e, q, alive))
        ]
      ]

  -- A file that `register` has registered has the ID that its owner gave for it in the last
  -- request, and this owner stands in the map under the ID of the owner that was asked for, however
  -- many dead owners were replaced; the owners of all other IDs are left as they were.
  pub register_file_owner :
      (rounds fuel id fd : ℕ) (m m' : LockManager) (w w' : World) (l : Lockable)
      → register_file p n rounds fuel id fd m w ≡ some (ok l, m', w')
      → ((s : World) × (register l.owner fd s ≡ (ok l.id, w')))
        × ((j : ℕ) → get j m'.owners ≡ (if id == j then some l.owner else get j m.owners))
  unfolding register_file
  register_file_owner zero fuel id fd m m' w w' l e = absurd (ground arith)
  register_file_owner (suc rounds) fuel id fd m m' w w' l e =
      elim (Option-cases (get_or_create_owner p n fuel id none m w)) [
        | inl q ↦ absurd (ground (arith, q, e))
        | inr ((err x, m₁, w₁), q) ↦ absurd (ground (arith, q, e))
        | inr ((ok owner, m₁, w₁), q) ↦
            let same = found_owner fuel id m m₁ w w₁ owner q in
            elim (after_answer rounds fuel id fd owner m m₁ m' w w₁ w' l q e) [
              | inl (o, kept, given) ↦ ((w₁, rw o given), λ j. ground (arith, same j, o, kept))
              | inr (w₂, again) ↦
                  let (given, left) = register_file_owner rounds fuel id fd m₁ m' w₂ w' l again in
                  (given, λ j. ground (arith, same j, left j))
            ]
      ]

  -- One pass of the cleanup thread, on a map without double keys: whatever is found afterwards was
  -- found before, with the same owner, and this owner has answered a ping of the pass.
  pub cleanup_alive :
      (m : Assoc OwnedFd) (w : World) (id owner : ℕ)
      → Distinct m
      → get id (cleanup p n m w).0 ≡ some owner
      → (get id m ≡ some owner) × ((s : World) × ((ping owner s).0 ≡ ok tt))
  unfolding cleanup get
  cleanup_alive [] w id owner d e = absurd (ground arith)
  cleanup_alive ((j, o) ∷ m) w id owner d e = elim (Result-cases (ping o w).0) [
    | inl (_, q) ↦ elim (Bool-cases (j == id)) [
      | inl this ↦
          let same : o ≡ owner = ground (arith, q, this, e) in
          (ground (arith, this, same), (w, rw (← same) q))
      | inr that ↦
          let (found, alive) =
            cleanup_alive m (ping o w).1 id owner d.1 (ground (arith, q, that, e)) in
          (ground (arith, that, found), alive)
    ]
    | inr (x, q) ↦
        let (found, alive) = cleanup_alive m (ping o w).1 id owner d.1 (ground (arith, q, e)) in
        (ground (arith, d.0, found), alive)
  ]
