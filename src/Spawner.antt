-- ===== src/Spawner.antt =====
-- `OwnerSpawner::run` of src/owner_spawner.rs: the loop of the coordinator process.
-- What `receive_request` and `spawn_owner_process` give in each round is given.
use ulockmgr.Prelude.{
  ◌≡◌, ◌≢◌, refl, ap, Bool, Bool-cases, inl, inr, true, false, Option, none, some, arith, List, [],
  ◌∷◌, ◌++◌, map, if◌then◌else◌,
}
use ulockmgr.IoError.{IoError, ErrorKind, broken_pipe, Result, Result-cases, ok, err, Errnos, kind}
use ulockmgr.Messages.Traits.{OwnedFd}
use ulockmgr.Messages.RequestSpawnOwner.{
  Duration, RequestSpawnOwner, ReplyRequestSpawnOwner, create_reply,
}

pub record Round : Type 0 where
  pub request : Result (RequestSpawnOwner × OwnedFd) IoError
  pub spawned : Result OwnedFd IoError

-- An owner process that has been started with a time-to-live, and the descriptors that the reply
-- carries.
pub record Started : Type 0 where
  pub ttl : Duration
  pub reply : ReplyRequestSpawnOwner
  pub fds : List OwnedFd

abbrev pub is_hang_up : ErrorKind → Bool
is_hang_up broken_pipe = true
is_hang_up _ = false

-- The loop. `none`: the rounds given are over, and it waits for the next request.
unfoldable pub serve : Errnos → List Round → Option (Result (Unit {0}) IoError) × List Started
serve n [] = (none, [])
serve n (r ∷ rs) =
    let rest = serve n rs in
    elim r.request [
      | err e ↦ (some (if is_hang_up (kind n e) then ok tt else err e), [])
      | ok (request, reply_oneshot) ↦ elim r.spawned [
        | err e ↦ (some (err e), [])
        | ok parent_fd ↦ (
          rest.0,
          record { ttl = request.ttl; reply = create_reply reply_oneshot; fds = parent_fd ∷ [] }
              ∷ rest.1,
        )
      ]
    ]

-- `run`, with the signals blocked first.
unfoldable pub run :
    Errnos
    → Result (Unit {0}) IoError
    → List Round
    → Option (Result (Unit {0}) IoError) × List Started
run n (err e) rounds = (some (err e), [])
run n (ok _) rounds = serve n rounds

-- A request that is answered: its time-to-live, where to reply, and the new owner's socket.
pub record Job : Type 0 where
  pub ttl : Duration
  pub reply_oneshot : OwnedFd
  pub parent_fd : OwnedFd

abbrev pub requested : Job → Round
requested j = record {
  request = ok (record { ttl = j.ttl }, j.reply_oneshot);
  spawned = ok j.parent_fd;
}

abbrev pub answered : Job → Started
answered j = record { ttl = j.ttl; reply = create_reply j.reply_oneshot; fds = j.parent_fd ∷ [] }

-- How the loop can end: the client hangs up, a request cannot be received, or an owner process
-- cannot be started.
pub data Ends (n : Errnos) (r : Round) : Result (Unit {0}) IoError → Type 0 where
  hangs_up : (e : IoError) → r.request ≡ err e → kind n e ≡ broken_pipe → Ends n r (ok tt)
  not_received : (e : IoError) → r.request ≡ err e → kind n e ≢ broken_pipe → Ends n r (err e)
  not_started :
      (request : RequestSpawnOwner × OwnedFd) (e : IoError)
      → r.request ≡ ok request
      → r.spawned ≡ err e
      → Ends n r (err e)

-- How the rounds go, with the outcome and what has been started.
pub data Course (n : Errnos) (rounds : List Round)
    : Option (Result (Unit {0}) IoError) × List Started → Type 0 where
  waits :
      (jobs : List Job) → rounds ≡ map requested jobs → Course n rounds (none, map answered jobs)
  ends :
      (jobs : List Job) (last : Round) (later : List Round) (r : Result (Unit {0}) IoError)
      → rounds ≡ map requested jobs ++ last ∷ later
      → Ends n last r
      → Course n rounds (some r, map answered jobs)

not_hang_up : (x : ErrorKind) → is_hang_up x ≡ false → x ≢ broken_pipe
not_hang_up x h e = ground (arith, h, e)

hang_up-broken_pipe : (x : ErrorKind) → is_hang_up x ≡ true → x ≡ broken_pipe
hang_up-broken_pipe broken_pipe h = refl
hang_up-broken_pipe _ h = absurd (cc)

-- One round of the loop, by what it is given.
serve-err :
    (n : Errnos) (r : Round) (rs : List Round) (e : IoError)
    → r.request ≡ err e
    → serve n (r ∷ rs) ≡ (some (if is_hang_up (kind n e) then ok tt else err e), [])
unfolding serve
serve-err n r rs e q = ground (arith, q)

serve-not_started :
    (n : Errnos) (r : Round) (rs : List Round) (request : RequestSpawnOwner × OwnedFd) (e : IoError)
    → r.request ≡ ok request
    → r.spawned ≡ err e
    → serve n (r ∷ rs) ≡ (some (err e), [])
unfolding serve
serve-not_started n r rs request e q s = ground (arith, q, s)

serve-started :
    (n : Errnos) (r : Round) (rs : List Round) (j : Job)
    → r ≡ requested j
    → serve n (r ∷ rs) ≡ ((serve n rs).0, answered j ∷ (serve n rs).1)
unfolding serve
serve-started n r rs j e = ap (λ (x : Round). serve n (x ∷ rs)) e

err-Course :
    (n : Errnos) (r : Round) (rs : List Round) (e : IoError)
    → r.request ≡ err e
    → Course n (r ∷ rs) (serve n (r ∷ rs))
err-Course n r rs e q = elim (Bool-cases (is_hang_up (kind n e))) [
  | inl h ↦
      let same : serve n (r ∷ rs) ≡ (some (ok tt), []) = rw (serve-err n r rs e q, h) refl in
      rw same (ends [] r rs (ok tt) refl (hangs_up e q (hang_up-broken_pipe (kind n e) h)))
  | inr h ↦
      let same : serve n (r ∷ rs) ≡ (some (err e), []) = rw (serve-err n r rs e q, h) refl in
      rw same (ends [] r rs (err e) refl (not_received e q (not_hang_up (kind n e) h)))
]

with_job :
    (n : Errnos) (r : Round) (j : Job) (rs : List Round)
    (o : Option (Result (Unit {0}) IoError) × List Started)
    → r ≡ requested j
    → Course n rs o
    → Course n (r ∷ rs) (o.0, answered j ∷ o.1)
with_job n r j rs _ s (waits jobs e) = waits (j ∷ jobs) (rw (s, e) refl)
with_job n r j rs _ s (ends jobs last later x e end) =
    ends (j ∷ jobs) last later x (rw (s, e) refl) end

serve-Course : (n : Errnos) (rounds : List Round) → Course n rounds (serve n rounds)
serve-Course n [] = unfold serve in waits [] refl
serve-Course n (r ∷ rs) = elim (Result-cases r.request) [
  | inr (e, q) ↦ err-Course n r rs e q
  | inl (request, q) ↦ elim (Result-cases r.spawned) [
    | inr (e, s) ↦
        rw (serve-not_started n r rs request e q s)
          (ends [] r rs (err e) refl (not_started request e q s))
    | inl (parent_fd, s) ↦
        let j : Job = record {
          ttl = request.0.ttl;
          reply_oneshot = request.1;
          parent_fd = parent_fd;
        } in
        let same : r ≡ requested j = cc in
        rw (serve-started n r rs j same) (with_job n r j rs (serve n rs) same (serve-Course n rs))
  ]
]

-- Whatever the coordinator receives and whatever becomes of its owner processes, the rounds are
-- requests that were received and whose owner was started, and after them the loop waits or meets one
-- that ends it: a client that hangs up ends it without an error, any other error in receiving, or
-- an owner that cannot be started, ends it with that error. For each of the former, in order, and
-- for nothing else, one owner is started with the time-to-live that was asked for, and one reply goes
-- to the descriptor of the request, with the socket of the new owner and no other descriptor. If the
-- signals cannot be blocked, it ends with that error and starts nothing.
pub run_serves :
    (n : Errnos) (rounds : List Round) (e : IoError)
    → Course n rounds (run n (ok tt) rounds) × (run n (err e) rounds ≡ (some (err e), []))
unfolding run
run_serves n rounds e = (serve-Course n rounds, refl)
