-- ===== src/Daemon/Receive/Garbage.antt =====
-- The command loop of src/owner.rs on requests that cannot be received.
use mathlib.Core.List.{append-nil}
use ulockmgr.Prelude.{
  ◌≡◌, ◌≢◌, ◌⊎◌, refl, ap, ◌∙◌, Option, none, some, inl, inr, arith, List, [], ◌∷◌, ◌++◌,
  Option-cases,
}
use ulockmgr.IoError.{
  IoError, ErrorKind, broken_pipe, unexpected_eof, invalid_input, invalid_data, Result, ok, err,
  Errnos, kind,
}
use ulockmgr.Types.{Libc}
use ulockmgr.Kernel.{Kernel}
use ulockmgr.Daemon.State.{DaemonOwnerInner}
use ulockmgr.Daemon.Receive.{
  Action, refresh, Incoming, verdict, recoverable, fatal, Ending, returned, receive_loop,
}

-- The kinds of error that a request of a bad client gives.
abbrev pub IsGarbage : ErrorKind → Type 0
IsGarbage x = (x ≡ unexpected_eof) ⊎ (x ≡ invalid_input) ⊎ (x ≡ invalid_data)

abbrev pub AllGarbage : Errnos → List Incoming → Type 0
AllGarbage n [] = Unit
AllGarbage n (i ∷ is) = (e : IoError) × (i.request ≡ err e) × IsGarbage (kind n e) × AllGarbage n is

-- An error with which the owner stops receiving, and what the loop returns on it: the other end is
-- closed, or the socket has failed.
pub data Final (n : Errnos) : IoError → Result (Unit {0}) IoError → Type 0 where
  closed : {e : IoError} → kind n e ≡ broken_pipe → Final n e (ok tt)
  lost : {e : IoError} → kind n e ≢ broken_pipe → ¬ IsGarbage (kind n e) → Final n e (err e)

garbage_verdict : (x : ErrorKind) → IsGarbage x → verdict x ≡ recoverable
unfolding verdict
garbage_verdict x (inl e) = rw e refl
garbage_verdict x (inr (inl e)) = rw e refl
garbage_verdict x (inr (inr e)) = rw e refl

lost_verdict : (x : ErrorKind) → x ≢ broken_pipe → ¬ IsGarbage x → verdict x ≡ fatal
unfolding verdict
lost_verdict broken_pipe p g = absurd (p refl)
lost_verdict unexpected_eof p g = absurd (g (inl refl))
lost_verdict invalid_input p g = absurd (g (inr (inl refl)))
lost_verdict invalid_data p g = absurd (g (inr (inr refl)))
lost_verdict _ p g = refl

-- One refresh of the time-to-live for each round.
abbrev pub refreshes : List Incoming → List Action
refreshes [] = []
refreshes (i ∷ is) = refresh ∷ refreshes is

-- The outcome of a loop, with more done before it.
abbrev pub after {ℓ} :
    {W : Type ℓ}
    → List Action
    → Option (Ending × List Action × DaemonOwnerInner × W)
    → Option (Ending × List Action × DaemonOwnerInner × W)
after first none = none
after first (some (end, done, d, w)) = some (end, first ++ done, d, w)

after-after {ℓ} :
    {W : Type ℓ} (a : Action) (first : List Action)
    (r : Option (Ending × List Action × DaemonOwnerInner × W))
    → after (a ∷ []) (after first r) ≡ after (a ∷ first) r
after-after a first none = refl
after-after a first (some _) = refl

module _ (k : Kernel) (c : Libc) (n : Errnos) where
  garbage_round :
      (b : Incoming) (is : List Incoming) (d : DaemonOwnerInner) (w : k.World) (e : IoError)
      → b.request ≡ err e
      → IsGarbage (kind n e)
      → receive_loop k c n (b ∷ is) d w ≡ after (refresh ∷ []) (receive_loop k c n is d w)
  unfolding receive_loop
  garbage_round b is d w e q garbage =
      let v = garbage_verdict (kind n e) garbage in
      elim (Option-cases (receive_loop k c n is d w)) [
        | inl none_left ↦ ground (arith, none_left)
        | inr (r, left) ↦ ground (arith, left)
      ]

  garbage_rounds :
      (bad is : List Incoming) (d : DaemonOwnerInner) (w : k.World)
      → AllGarbage n bad
      → receive_loop k c n (bad ++ is) d w ≡ after (refreshes bad) (receive_loop k c n is d w)
  garbage_rounds [] is d w a = elim (Option-cases (receive_loop k c n is d w)) [
    | inl e ↦ rw e refl
    | inr (r, e) ↦ rw e refl
  ]
  garbage_rounds (b ∷ bs) is d w a =
      garbage_round b (bs ++ is) d w a.0 a.1 a.2
      ∙ ap (after (refresh ∷ [])) (garbage_rounds bs is d w a.3)
      ∙ after-after refresh (refreshes bs) (receive_loop k c n is d w)

  last_round :
      (last : Incoming) (later : List Incoming) (d : DaemonOwnerInner) (w : k.World) (e : IoError)
      (r : Result (Unit {0}) IoError)
      → last.request ≡ err e
      → Final n e r
      → receive_loop k c n (last ∷ later) d w ≡ some (returned r, [], d, w)
  unfolding receive_loop verdict
  last_round last later d w e _ q (closed hang_up) = ground (arith, q, hang_up)
  last_round last later d w e _ q (lost p g) =
      let fatal_error = lost_verdict (kind n e) p g in ground (arith, q, fatal_error)

  append_nil : (xs : List Action) → xs ++ [] ≡ xs
  append_nil xs = simp (append-nil)

  -- Rounds in which receiving a request gives UnexpectedEof, InvalidInput or InvalidData neither end
  -- the loop nor touch the state: each refreshes the time-to-live, and the rounds that follow go as
  -- if they had not been. A round that gives BrokenPipe after them ends the loop without an error,
  -- one that gives an error of any other kind ends it with that error; neither refreshes or touches
  -- the state, and nothing that would come later is received.
  pub garbage_harmless :
      (bad is later : List Incoming) (last : Incoming) (e : IoError) (r : Result (Unit {0}) IoError)
      (d : DaemonOwnerInner) (w : k.World)
      → AllGarbage n bad
      → last.request ≡ err e
      → Final n e r
      → (receive_loop k c n (bad ++ is) d w ≡ after (refreshes bad) (receive_loop k c n is d w))
        × (receive_loop k c n (bad ++ last ∷ later) d w ≡ some (returned r, refreshes bad, d, w))
  garbage_harmless bad is later last e r d w a q f = (
    garbage_rounds bad is d w a,
    garbage_rounds bad (last ∷ later) d w a
        ∙ ap (after (refreshes bad)) (last_round last later d w e r q f)
        ∙ ap (λ xs. some (returned r, xs, d, w)) (append_nil (refreshes bad)),
  )
