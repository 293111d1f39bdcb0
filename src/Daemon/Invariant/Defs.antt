-- ===== src/Daemon/Invariant/Defs.antt =====
-- Who holds an `Arc` of a registered file, and the invariant of the owner process's state.
use ulockmgr.Prelude.{
  ℕ, ◌+◌, ◌≤◌, ◌<◌, ◌^◌, ◌≡◌, true, none, some, List, [], ◌∷◌, length, ◌==◌, if◌then◌else◌,
}
use ulockmgr.Prelude.Assoc.{Assoc, get, Distinct}
use ulockmgr.Daemon.State.{FdData, DaemonOwnerInner}
use ulockmgr.Daemon.System.{
  Main, idle, using, spawning, Task, unregistering, stopping, draining, waiting, refused, locking,
  untracking, System,
}

-- The strong count at an address; 0 where there is no `FdData`.
abbrev pub strong_at : ℕ → Assoc FdData → ℕ
strong_at a m = elim (get a m) [ none ↦ 0 | some x ↦ x.strong ]

abbrev pub one_if : ℕ → ℕ → ℕ
one_if a b = if a == b then 1 else 0

-- The entries of the descriptor map that hold an address.
unfoldable pub mapped : ℕ → Assoc ℕ → ℕ
mapped a [] = 0
mapped a ((_, b) ∷ m) = one_if b a + mapped a m

abbrev pub main_holds : ℕ → Main → ℕ
main_holds a idle = 0
main_holds a (using b) = one_if b a
main_holds a (spawning b) = one_if b a + one_if b a

abbrev pub task_holds : ℕ → Task → ℕ
task_holds a (unregistering _) = 0
task_holds a (stopping b) = one_if b a
task_holds a (draining b) = one_if b a
task_holds a (waiting b) = one_if b a
task_holds a (refused b) = one_if b a
task_holds a (locking b _) = one_if b a
task_holds a (untracking _ _) = 0

unfoldable pub tasks_hold : ℕ → List Task → ℕ
tasks_hold a [] = 0
tasks_hold a (t ∷ ts) = task_holds a t + tasks_hold a ts

abbrev pub holders : ℕ → System → ℕ
holders a s = mapped a s.inner.descriptors + main_holds a s.main + tasks_hold a s.tasks

pub record IsHeap (d : DaemonOwnerInner) : Type 0 where
  pub distinct : Distinct d.heap
  pub fresh : (a : ℕ) → d.next_address ≤ a → get a d.heap ≡ none
  pub positive : (a : ℕ) (x : FdData) → get a d.heap ≡ some x → 0 < x.strong
  -- Each registered file holds one read guard of the exit lock.
  pub guarded : d.readers ≡ length d.heap
  pub closed : d.exit_lock ≡ true → d.heap ≡ []
  pub ids_distinct : Distinct d.descriptors
  pub id_fits : d.next_id < 2 ^ 64

pub record Inv (s : System) : Type 0 where
  pub heap : IsHeap s.inner
  pub counted : (a : ℕ) → strong_at a s.inner.heap ≡ holders a s
