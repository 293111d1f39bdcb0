-- ===== src/Protocol/Blocking.antt =====
-- A blocking lock from end to end: the client's `set_lock_blocking` over the replies of the server's
-- `set_lock_blocking`, both of src/owner.rs.
use ulockmgr.Prelude.{
  ℕ, ◌+◌, ◌<◌, ◌^◌, ◌≡◌, refl, ◌∙◌, true, false, none, some, inl, inr, arith, List, [], ◌∷◌, ◌++◌,
  map, length, ◌==◌, if◌then◌else◌, Bool-cases,
}
use ulockmgr.IoError.{
  IoError, os, Result, Result-cases, ok, err, map_ok, map_err, Errnos, io_cvt, errno_of,
}
use ulockmgr.Types.{Libc, LockParams, params_into_flock}
use ulockmgr.Messages.LockCommand.{pending, done}
use ulockmgr.Kernel.{Kernel, block_all_signals, unblock_signal, drop_guard}
use ulockmgr.Daemon.State.{DaemonOwnerInner, InterruptibleHandle}
use ulockmgr.Daemon.Ids.{insert_vacant-total}
use ulockmgr.Daemon.Handlers.{handle_interrupt_add}
use ulockmgr.Daemon.Lock.{LockReply, try_lock, wait_lock, set_lock_blocking_thread}
use ulockmgr.Client.Calls.{received}
use ulockmgr.Client.Wait.{Round, await, on_item, set_lock_blocking}
use ulockmgr.Client.Cleanup.{AllInterrupted, await_outlasts}

-- Changing the signal mask succeeds: it fails only for an unknown first argument.
pub record Masks (k : Kernel) : Type 0 where
  pub block : (s : k.World) → (r : k.SigSet) × ((k.sig_block k.all s).0 ≡ ok r)
  pub unblock : (s : k.World) → (r : k.SigSet) × ((k.sig_unblock k.sigusr1 s).0 ≡ ok r)

-- A round in which a reply arrives.
abbrev pub delivered : LockReply → Round
delivered r = record { unblock = ok tt; item = some (received r); answer = ok (ok tt) }

-- What the client returns on the server's replies, with interrupted rounds before the second.
unfoldable pub client_result : Errnos → List Round → List LockReply → Result LockParams IoError
client_result n is [] = (set_lock_blocking n (ok tt) (ok tt) none is).0
client_result n is (r ∷ rs) =
    (set_lock_blocking n (ok tt) (ok tt) (some (received r)) (is ++ map delivered rs)).0

-- What a blocking lock means: by what F_SETLK answers, and F_SETLKW where that would wait.
unfoldable pub blocking_spec :
    Errnos → LockParams → Result (Unit {0}) ℕ → Result (Unit {0}) ℕ → Result LockParams IoError
blocking_spec n lock (ok _) second = ok lock
blocking_spec n lock (err e) second =
    if e == n.eagain then map_ok (λ _. lock) (map_err os second) else err (os e)

client-pending :
    (n : Errnos) (is : List Round) (id : ℕ) (last : LockReply)
    → AllInterrupted n is
    → client_result n is (ok (pending id) ∷ last ∷ []) ≡ (await n id true (delivered last ∷ [])).0
unfolding client_result set_lock_blocking received
client-pending n [] id last a = unfold await in refl
client-pending n (i ∷ is) id last a =
    await_outlasts n id false (i ∷ is) (delivered last ∷ []) a (omega arith)

pub client-done :
    (n : Errnos) (is : List Round) (lock : LockParams) (rs : List LockReply)
    → client_result n is (ok (done lock) ∷ rs) ≡ ok lock
unfolding client_result set_lock_blocking received
client-done n is lock rs = refl

client-err :
    (n : Errnos) (is : List Round) (e : ℕ) (rs : List LockReply)
    → client_result n is (err e ∷ rs) ≡ err (os e)
unfolding client_result set_lock_blocking received
client-err n is e rs = refl

client-last :
    (n : Errnos) (id : ℕ) (lock : LockParams) (r : Result (Unit {0}) ℕ)
    → (await n id true (delivered (io_cvt n (map_ok (λ _. done lock) (map_err os r))) ∷ [])).0
      ≡ map_ok (λ _. lock) (map_err os r)
unfolding await on_item received io_cvt errno_of
client-last n id lock (ok _) = refl
client-last n id lock (err e) = refl

module _ (k : Kernel) (c : Libc) (n : Errnos) (masks : Masks k) where
  open k use {World, setlk, setlkw, all, sigusr1, sig_block, sig_unblock}

  -- The states in which F_SETLK and F_SETLKW are called.
  abbrev pub at_setlk : World → World
  at_setlk s = (sig_block all s).1

  abbrev pub at_setlkw : ℕ → LockParams → World → World
  at_setlkw fd lock s = (sig_unblock sigusr1 (setlk fd (params_into_flock c lock) (at_setlk s)).1).1

  wait_lock_lem :
      (fd : ℕ) (lock : LockParams) (s : World)
      → (wait_lock k c n fd lock s).0
        ≡ io_cvt n (
            map_ok
              (λ _. done lock)
              (map_err os (setlkw fd (params_into_flock c lock) (sig_unblock sigusr1 s).1).0))
  unfolding wait_lock unblock_signal
  wait_lock_lem fd lock s = let (r, e) = masks.unblock s in ground (arith, e)

  interrupt_given :
      (owner : DaemonOwnerInner) (h : InterruptibleHandle)
      → owner.interrupt_next_id < 2 ^ 64
      → length owner.interrupts < 2 ^ 64
      → (id : ℕ) × (owner' : DaemonOwnerInner) × (handle_interrupt_add owner h ≡ some (id, owner'))
  unfolding handle_interrupt_add
  interrupt_given owner h hn hl =
      let (g, e) =
        insert_vacant-total (length owner.interrupts + 1) owner.interrupt_next_id h owner.interrupts
          hn (omega arith) (omega arith) in
      (
        g.id,
        record owner { interrupts = g.entries; interrupt_next_id = g.next_id },
        rw (e, handle_interrupt_add),
      )

  module _ (owner : DaemonOwnerInner) (h : InterruptibleHandle) (fd : ℕ) (lock : LockParams)
      (s : World) where
    -- What F_SETLK answers, and what F_SETLKW answers after it.
    abbrev pub setlk_answer : Result (Unit {0}) ℕ
    setlk_answer = (setlk fd (params_into_flock c lock) (at_setlk s)).0

    abbrev pub setlkw_answer : Result (Unit {0}) ℕ
    setlkw_answer = (setlkw fd (params_into_flock c lock) (at_setlkw fd lock s)).0

    abbrev pub last_reply : LockReply
    last_reply = io_cvt n (map_ok (λ _. done lock) (map_err os setlkw_answer))

    first_reply :
        owner.interrupt_next_id < 2 ^ 64
        → length owner.interrupts < 2 ^ 64
        → (first : LockReply) × (owner' : DaemonOwnerInner) × (try_lock k c n owner h fd lock
              (at_setlk s)
            ≡ some (first, owner', (setlk fd (params_into_flock c lock) (at_setlk s)).1))
          × ((is : List Round)
              → AllInterrupted n is
              → client_result n is (first ∷ last_reply ∷ [])
                ≡ blocking_spec n lock setlk_answer setlkw_answer)
    unfolding try_lock io_cvt errno_of blocking_spec
    first_reply hn hl = elim (Result-cases setlk_answer) [
      | inl (u, e) ↦ (
        ok (done lock),
        owner,
        ground (arith, e),
        λ is a. client-done n is lock (last_reply ∷ []) ∙ ground (arith, e),
      )
      | inr (x, e) ↦ elim (Bool-cases (x == n.eagain)) [
        | inl again ↦
            let (id, owner', added) = interrupt_given owner h hn hl in
            (
              ok (pending id),
              owner',
              ground (arith, e, added),
              λ is a.
                  client-pending n is id last_reply a
                  ∙ client-last n id lock setlkw_answer
                  ∙ ground (arith, e),
            )
        | inr failed ↦ (
          err x,
          owner,
          ground (arith, e),
          λ is a. client-err n is x (last_reply ∷ []) ∙ ground (arith, e),
        )
      ]
    ]

    thread_replies :
        (first : LockReply) (owner' : DaemonOwnerInner)
        → try_lock k c n owner h fd lock (at_setlk s)
          ≡ some (first, owner', (setlk fd (params_into_flock c lock) (at_setlk s)).1)
        → (s' : World) × (set_lock_blocking_thread k c n owner h fd lock s
            ≡ some (first ∷ last_reply ∷ [], owner', s'))
    unfolding set_lock_blocking_thread block_all_signals
    thread_replies first owner' e =
        let (r, b) = masks.block s in
        let w : World = (setlk fd (params_into_flock c lock) (at_setlk s)).1 in
        (
          drop_guard k r (wait_lock k c n fd lock w).1,
          ground (arith, b, e, wait_lock_lem fd lock w),
        )

    -- A blocking lock answers, and means what `blocking_spec` says: if the kernel grants the lock at
    -- once, the client has it; if the lock would have to wait, the client gets the outcome of
    -- F_SETLKW, however often it is interrupted, provided that it can let SIGUSR1 through and that
    -- each of its requests to interrupt is answered without an error; any other error of F_SETLK is
    -- handed on. The signal mask of the server's thread can be changed, the counter of interrupt IDs
    -- fits 64 bits, and fewer than 2^64 interrupts are known.
    pub blocking_lock_refines :
        owner.interrupt_next_id < 2 ^ 64
        → length owner.interrupts < 2 ^ 64
        → (is : List Round) → AllInterrupted n is
        → (replies : List LockReply) × (owner' : DaemonOwnerInner) × (s' : World)
          × (set_lock_blocking_thread k c n owner h fd lock s ≡ some (replies, owner', s'))
          × (client_result n is replies ≡ blocking_spec n lock setlk_answer setlkw_answer)
    blocking_lock_refines hn hl is a =
        let (first, owner', tried, view) = first_reply hn hl in
        let (s', ran) = thread_replies first owner' tried in
        (first ∷ last_reply ∷ [], owner', s', ran, view is a)
