-- ===== src/Manager/Owners.antt =====
-- `LockManager` of src/lib.rs.
-- A call of `get_or_create_owner` or `register` is taken alone: no other caller and no pass of the
-- cleanup thread uses the shared map during it. Manager/Callers has them interleaved.
-- The requests to the coordinator and to the owners are an interface: each answers, and changes
-- the world. An owner is the descriptor of its socket. `none`: the fuel of a loop ran out.
use ulockmgr.Prelude.{
  ℕ, zero, suc, Bool, true, false, Option, none, some, List, [], ◌∷◌, ◌==◌, ◌&&◌, if◌then◌else◌,
}
use ulockmgr.Prelude.Assoc.{Assoc, get, insert, remove}
use ulockmgr.IoError.{IoError, ErrorKind, broken_pipe, custom, other, Result, ok, err, Errnos, kind}
use ulockmgr.Messages.Traits.{OwnedFd}
use ulockmgr.Messages.RequestSpawnOwner.{Duration}

-- What the manager asks of other processes. `spawn` is `send_request_with_fds` with
-- `RequestSpawnOwner`, after both `?`; `ping` is `Owner::ping`; `register` is `Owner::register`.
pub record Peers : Type 1 where
  pub World : Type 0
  pub spawn : Duration → World → Result (List OwnedFd) IoError × World
  pub ping : OwnedFd → World → Result (Unit {0}) IoError × World
  pub register : OwnedFd → OwnedFd → World → Result ℕ IoError × World

-- The fields of `LockManager` that its methods use.
pub record LockManager : Type 0 where
  pub owners : Assoc OwnedFd
  pub ttl : Duration

-- The time-to-live that `build` chooses.
abbrev pub default_ttl : Duration
default_ttl = record { secs = 5; nanos = 0 }

abbrev pub build : LockManager
build = record { owners = []; ttl = default_ttl }

abbrev pub is_zero : Duration → Bool
is_zero t = t.secs == 0 && t.nanos == 0

abbrev pub is_err {ℓ} : {A : Type ℓ} {E : Type 0} → Result A E → Bool
is_err (ok _) = false
is_err (err _) = true

abbrev pub unwrap_or {ℓ} : {A : Type ℓ} → Option A → A → A
unwrap_or none a = a
unwrap_or (some b) _ = b

-- A `Lockable`: the owner's socket, and the ID of the registration.
pub record Lockable : Type 0 where
  pub owner : OwnedFd
  pub id : ℕ

expect_one : Result (List OwnedFd) IoError → Result OwnedFd IoError
expect_one (err e) = err e
expect_one (ok (fd ∷ [])) = ok fd
expect_one (ok _) = err (custom other)

module _ (p : Peers) (n : Errnos) where
  open p use {World, spawn, ping, register}

  -- The owner of an ID, from the map or else new, and whether one has been made so far.
  unfoldable pub find_or_spawn :
      ℕ
      → Duration
      → Bool
      → LockManager
      → World
      → Result (OwnedFd × Bool) IoError × LockManager × World
  unfolding expect_one
  find_or_spawn owner_id ttl new_owner m w = elim (get owner_id m.owners) [
    | some owner ↦ (ok (owner, new_owner), m, w)
    | none ↦
        let (r, w') = spawn ttl w in
        elim (expect_one r) [
          | err e ↦ (err e, m, w')
          | ok owner ↦ (ok (owner, true), record m { owners = insert owner_id owner m.owners }, w')
        ]
  ]

  -- The end of a round: a dead owner is removed, unless it is new and was to live for no time.
  unfoldable pub check_owner :
      ℕ → Duration → OwnedFd → Bool → LockManager → World → Bool × LockManager × World
  check_owner owner_id ttl owner new_owner m w =
      if is_zero ttl && new_owner
      then (true, m, w)
      else (let (r, w') = ping owner w in
          if is_err r
          then (false, record m { owners = remove owner_id m.owners }, w')
          else (true, m, w'))

  unfoldable pub owner_loop :
      ℕ
      → ℕ
      → Duration
      → Bool
      → LockManager
      → World
      → Option (Result OwnedFd IoError × LockManager × World)
  owner_loop zero owner_id ttl new_owner m w = none
  owner_loop (suc fuel) owner_id ttl new_owner m w =
      let (r, m', w') = find_or_spawn owner_id ttl new_owner m w in
      elim r [
        | err e ↦ some (err e, m', w')
        | ok (owner, is_new) ↦
            let (alive, m'', w'') = check_owner owner_id ttl owner is_new m' w' in
            elim alive [
              | true ↦ some (ok owner, m'', w'')
              | false ↦ owner_loop fuel owner_id ttl is_new m'' w''
            ]
      ]

  -- `get_or_create_owner`, with the signals blocked, taken alone: no other thread uses the map during it.
  unfoldable pub get_or_create_owner :
      ℕ
      → ℕ
      → Option Duration
      → LockManager
      → World
      → Option (Result OwnedFd IoError × LockManager × World)
  get_or_create_owner fuel owner_id ttl m w =
      owner_loop fuel owner_id (unwrap_or ttl m.ttl) false m w

  abbrev pub is_broken_pipe : ErrorKind → Bool
  is_broken_pipe broken_pipe = true
  is_broken_pipe _ = false

  -- The guard of the second arm in `register`: the owner is asked only after a broken pipe.
  unfoldable pub owner_is_gone : OwnedFd → IoError → World → Bool × World
  unfolding kind
  owner_is_gone owner e w =
      if is_broken_pipe (kind n e)
      then (let (r, w') = ping owner w in (is_err r, w'))
      else (false, w)

  -- `LockManager::register`: rounds of its own, each with the fuel of the inner loop.
  unfoldable pub register_file :
      ℕ
      → ℕ
      → ℕ
      → OwnedFd
      → LockManager
      → World
      → Option (Result Lockable IoError × LockManager × World)
  register_file zero fuel owner_id fd m w = none
  register_file (suc rounds) fuel owner_id fd m w =
      elim (get_or_create_owner fuel owner_id none m w) [
        | none ↦ none
        | some (err e, m', w') ↦ some (err e, m', w')
        | some (ok owner, m', w') ↦
            let (r, w'') = register owner fd w' in
            elim r [
              | ok id ↦ some (ok (record { owner = owner; id = id }), m', w'')
              | err e ↦
                  let (gone, w''') = owner_is_gone owner e w'' in
                  elim gone [
                    | true ↦ register_file rounds fuel owner_id fd m' w'''
                    | false ↦ some (err e, m', w''')
                  ]
            ]
      ]

  -- One pass of `cleanup_thread`: `retain` keeps the owners that answer.
  unfoldable pub cleanup : Assoc OwnedFd → World → Assoc OwnedFd × World
  cleanup [] w = ([], w)
  cleanup ((id, owner) ∷ m) w =
      let (r, w') = ping owner w in
      let (m', w'') = cleanup m w' in (if is_err r then m' else (id, owner) ∷ m', w'')
