-- ===== src/Tests/Daemon/Loops.antt =====
-- The two loops of the owner process on concrete input.
use ulockmgr.Prelude.{◌≡◌, refl, false, none, some, inl, inr, List, [], ◌∷◌, ◌++◌, arith}
use ulockmgr.IoError.{custom, invalid_data, invalid_input, unexpected_eof, other, ok, err, kind}
use ulockmgr.Messages.Ping
use ulockmgr.Messages.Message.{ping}
use ulockmgr.Kernel.{function}
use ulockmgr.Daemon.State.{new_inner}
use ulockmgr.Daemon.Start.{Tick, result, timeout, refreshed, start, start_exits_unused}
use ulockmgr.Daemon.Receive.{Incoming, receive_loop, returned}
use ulockmgr.Daemon.Receive.Garbage.{after, refreshes, lost, garbage_harmless}
use ulockmgr.Tests.Platform.{linux, errnos, toy_kernel, nobody}

-- A request, then a file in use, then neither.
abbrev requested : Tick
requested = record {
  received = refreshed;
  finished = false;
  joined = result (ok tt);
  inner = new_inner;
}

abbrev busy : Tick
busy = record requested { received = timeout; inner = record new_inner { readers = 1 } }

abbrev unused : Tick
unused = record requested { received = timeout }

start_exits_unused_example :
    (start (requested ∷ busy ∷ []) ≡ none)
    × (start ((requested ∷ busy ∷ []) ++ unused ∷ []) ≡ some (ok tt))
start_exits_unused_example =
    start_exits_unused (requested ∷ busy ∷ []) unused []
      (inl refl, (inr (refl, refl, λ e. omega (arith, e)), tt)) refl refl refl

abbrev incoming : Incoming
incoming = record {
  request = ok (ping Ping.ping, 3);
  ret = 0;
  errno = 0;
  handler = function;
  thread = none;
}

abbrev bad : List Incoming
bad =
    record incoming { request = err (custom invalid_data) }
    ∷ record incoming { request = err (custom unexpected_eof) }
    ∷ record incoming { request = err (custom invalid_input) }
    ∷ []

abbrev gone : Incoming
gone = record incoming { request = err (custom other) }

garbage_harmless_example :
    (receive_loop toy_kernel linux errnos (bad ++ incoming ∷ []) new_inner nobody
      ≡ after
          (refreshes bad)
          (receive_loop toy_kernel linux errnos (incoming ∷ []) new_inner nobody))
    × (receive_loop toy_kernel linux errnos (bad ++ gone ∷ incoming ∷ []) new_inner nobody
        ≡ some (returned (err (custom other)), refreshes bad, new_inner, nobody))
unfolding kind
garbage_harmless_example =
    garbage_harmless toy_kernel linux errnos bad (incoming ∷ []) (incoming ∷ []) gone (custom other)
      (err (custom other)) new_inner nobody
      (
        custom invalid_data,
        refl,
        inr (inr refl),
        (custom unexpected_eof, refl, inl refl, (custom invalid_input, refl, inr (inl refl), tt)),
      )
      refl (lost (λ e. cc) (λ g. elim g [ inl e ↦ cc | inr (inl e) ↦ cc | inr (inr e) ↦ cc ]))
