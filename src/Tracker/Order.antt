-- ===== src/Tracker/Order.antt =====
-- The critical sections of `RawInterruptibleTracker` of src/tracker.rs, in different orders.
-- The threads are a HashSet, which has no order: here a quotient of the lists by what `contains`
-- finds.
use mathlib.Core.Quot
use mathlib.Core.Quot.{Quot, Quot-set}
use ulockmgr.Prelude.{
  ℕ, ◌≡◌, ◌≢◌, refl, sym, ap, ◌∙◌, Bool, true, false, arith, List, [], ◌∷◌, ◌++◌, Bool-cases, inl,
  inr, ◌==◌, ◌||◌, ◌&&◌, if◌then◌else◌,
}
use ulockmgr.Tracker.{TrackerData, contains, insert_thread, remove_thread, track, untrack}
use ulockmgr.Tracker.Stop.{
  Access, enters, leaves, access, accesses, contains-insert_thread, contains-remove_thread,
}

abbrev pub SameThreads : List ℕ → List ℕ → Type 0
SameThreads ts us = (t : ℕ) → contains t ts ≡ contains t us

abbrev pub ThreadSet : Type 0
ThreadSet = Quot SameThreads

-- `TrackerData`, with its threads as a set.
abbrev pub View : Type 0
View = Bool × Bool × ThreadSet

abbrev pub view : TrackerData → View
view g = (g.can_spawn, g.new_thread, Quot.mk g.threads)

insert : ℕ → ThreadSet → ThreadSet
insert t =
    Quot.lift Quot-set (λ ts. Quot.mk (insert_thread t ts))
      (λ ts us h.
        Quot.sound
          λ u. ground (arith, h u, contains-insert_thread u t ts, contains-insert_thread u t us))

remove : ℕ → ThreadSet → ThreadSet
remove t =
    Quot.lift Quot-set (λ ts. Quot.mk (remove_thread t ts))
      (λ ts us h.
        Quot.sound
          λ u. ground (arith, h u, contains-remove_thread u t ts, contains-remove_thread u t us))

insert_comm : (t u : ℕ) (s : ThreadSet) → insert t (insert u s) ≡ insert u (insert t s)
unfolding insert
insert_comm t u =
    Quot.ind (λ s. Quot-set _ _)
      (λ ts. Quot.sound λ x. ground (
        arith,
        contains-insert_thread x t (insert_thread u ts),
        contains-insert_thread x u (insert_thread t ts),
        contains-insert_thread x t ts,
        contains-insert_thread x u ts,
      ))

remove_comm : (t u : ℕ) (s : ThreadSet) → remove t (remove u s) ≡ remove u (remove t s)
unfolding remove
remove_comm t u =
    Quot.ind (λ s. Quot-set _ _)
      (λ ts. Quot.sound λ x. ground (
        arith,
        contains-remove_thread x t (remove_thread u ts),
        contains-remove_thread x u (remove_thread t ts),
        contains-remove_thread x t ts,
        contains-remove_thread x u ts,
      ))

insert-remove : (t u : ℕ) → t ≢ u → (s : ThreadSet) → insert t (remove u s) ≡ remove u (insert t s)
unfolding insert remove
insert-remove t u other =
    Quot.ind (λ s. Quot-set _ _)
      (λ ts. Quot.sound λ x. ground (
        arith,
        other,
        contains-insert_thread x t (remove_thread u ts),
        contains-remove_thread x u (insert_thread t ts),
        contains-insert_thread x t ts,
        contains-remove_thread x u ts,
      ))

-- A critical section, on a set.
abbrev access_view : Access → View → View
access_view (enters t) (true, new, s) = (true, true, insert t s)
access_view (enters t) (false, new, s) = (false, new, s)
access_view (leaves t) (can, new, s) = (can, new, remove t s)

view-access : (a : Access) (g : TrackerData) → view (access a g) ≡ access_view a (view g)
unfolding access track untrack insert remove
view-access (leaves t) g = refl
view-access (enters t) g = elim (Bool-cases g.can_spawn) [
  | inl free ↦ rw free refl
  | inr closed ↦ rw closed refl
]

abbrev pub thread_of : Access → ℕ
thread_of (enters t) = t
thread_of (leaves t) = t

access_view_comm :
    (a b : Access) (v : View)
    → thread_of a ≢ thread_of b
    → access_view a (access_view b v) ≡ access_view b (access_view a v)
access_view_comm (enters t) (enters u) (true, new, s) other =
    ap (λ r. (true, true, r)) (insert_comm t u s)
access_view_comm (enters t) (leaves u) (true, new, s) other =
    ap (λ r. (true, true, r)) (insert-remove t u other s)
access_view_comm (leaves t) (enters u) (true, new, s) other =
    ap (λ r. (true, true, r)) (sym (insert-remove u t (λ e. other (sym e)) s))
access_view_comm (leaves t) (leaves u) (can, new, s) other =
    ap (λ r. (can, new, r)) (remove_comm t u s)
access_view_comm (enters t) (enters u) (false, new, s) other = refl
access_view_comm (enters t) (leaves u) (false, new, s) other = refl
access_view_comm (leaves t) (enters u) (false, new, s) other = refl

abbrev accesses_view : List Access → View → View
accesses_view [] v = v
accesses_view (a ∷ xs) v = accesses_view xs (access_view a v)

view-accesses :
    (xs : List Access) (g : TrackerData) → view (accesses xs g) ≡ accesses_view xs (view g)
unfolding accesses
view-accesses [] g = refl
view-accesses (a ∷ xs) g = view-accesses xs (access a g) ∙ ap (accesses_view xs) (view-access a g)

-- Two orders of critical sections in which each thread has its own in the same order.
pub data Reorders : List Access → List Access → Type 0 where
  same : {xs : List Access} → Reorders xs xs
  swaps :
      (ws : List Access) (a b : Access) (xs : List Access)
      → thread_of a ≢ thread_of b
      → Reorders (ws ++ a ∷ b ∷ xs) (ws ++ b ∷ a ∷ xs)
  both : {xs ys zs : List Access} → Reorders xs ys → Reorders ys zs → Reorders xs zs

swapped :
    (ws : List Access) (a b : Access) (xs : List Access) (v : View)
    → thread_of a ≢ thread_of b
    → accesses_view (ws ++ a ∷ b ∷ xs) v ≡ accesses_view (ws ++ b ∷ a ∷ xs) v
swapped [] a b xs v other = ap (accesses_view xs) (access_view_comm b a v (λ e. other (sym e)))
swapped (c ∷ ws) a b xs v other = swapped ws a b xs (access_view c v) other

reordered_view :
    {xs ys : List Access} (v : View) → Reorders xs ys → accesses_view xs v ≡ accesses_view ys v
reordered_view v same = refl
reordered_view v (swaps ws a b xs other) = swapped ws a b xs v other
reordered_view v (both r q) = reordered_view v r ∙ reordered_view v q

-- Whether a thread is tracked after the sections, if it was or was not before: only its own sections
-- matter, a last `leaves` frees it, and an `enters` tracks it unless the tracker is closed.
unfoldable pub tracked_by : (can_spawn : Bool) → ℕ → List Access → Bool → Bool
tracked_by can t [] was = was
tracked_by can t (enters u ∷ xs) was = tracked_by can t xs (if u == t then can || was else was)
tracked_by can t (leaves u ∷ xs) was = tracked_by can t xs (if u == t then false else was)

unfoldable pub any_enters : List Access → Bool
any_enters [] = false
any_enters (enters _ ∷ xs) = true
any_enters (leaves _ ∷ xs) = any_enters xs

tracked_by_comm :
    (can was : Bool) (t : ℕ) (a b : Access) (xs : List Access)
    → thread_of a ≢ thread_of b
    → tracked_by can t (a ∷ b ∷ xs) was ≡ tracked_by can t (b ∷ a ∷ xs) was
unfolding tracked_by
tracked_by_comm can was t (enters u) (enters v) xs other = ground (arith, other)
tracked_by_comm can was t (enters u) (leaves v) xs other = ground (arith, other)
tracked_by_comm can was t (leaves u) (enters v) xs other = ground (arith, other)
tracked_by_comm can was t (leaves u) (leaves v) xs other = ground (arith, other)

tracked_by_swap :
    (can was : Bool) (t : ℕ) (ws : List Access) (a b : Access) (xs : List Access)
    → thread_of a ≢ thread_of b
    → tracked_by can t (ws ++ a ∷ b ∷ xs) was ≡ tracked_by can t (ws ++ b ∷ a ∷ xs) was
unfolding tracked_by
tracked_by_swap can was t [] a b xs other = tracked_by_comm can was t a b xs other
tracked_by_swap can was t (enters u ∷ ws) a b xs other =
    tracked_by_swap can (if u == t then can || was else was) t ws a b xs other
tracked_by_swap can was t (leaves u ∷ ws) a b xs other =
    tracked_by_swap can (if u == t then false else was) t ws a b xs other

reordered_tracked_by :
    {xs ys : List Access} (can was : Bool) (t : ℕ)
    → Reorders xs ys
    → tracked_by can t xs was ≡ tracked_by can t ys was
reordered_tracked_by can was t same = refl
reordered_tracked_by can was t (swaps ws a b xs other) = tracked_by_swap can was t ws a b xs other
reordered_tracked_by can was t (both r q) =
    reordered_tracked_by can was t r ∙ reordered_tracked_by can was t q

access-can_spawn : (a : Access) (g : TrackerData) → (access a g).can_spawn ≡ g.can_spawn
unfolding access track untrack
access-can_spawn (enters t) g = ground arith
access-can_spawn (leaves t) g = refl

accesses-can_spawn : (xs : List Access) (g : TrackerData) → (accesses xs g).can_spawn ≡ g.can_spawn
unfolding accesses
accesses-can_spawn [] g = refl
accesses-can_spawn (a ∷ xs) g = accesses-can_spawn xs (access a g) ∙ access-can_spawn a g

accesses-new_thread :
    (xs : List Access) (g : TrackerData)
    → (accesses xs g).new_thread ≡ (g.new_thread || (g.can_spawn && any_enters xs))
unfolding accesses access track untrack any_enters
accesses-new_thread [] g = ground arith
accesses-new_thread (enters t ∷ xs) g =
    ground (arith, accesses-new_thread xs (access (enters t) g), access-can_spawn (enters t) g)
accesses-new_thread (leaves t ∷ xs) g = ground (arith, accesses-new_thread xs (access (leaves t) g))

accesses-threads :
    (t : ℕ) (xs : List Access) (g : TrackerData)
    → contains t (accesses xs g).threads ≡ tracked_by g.can_spawn t xs (contains t g.threads)
unfolding accesses access track untrack tracked_by
accesses-threads t [] g = refl
accesses-threads t (enters u ∷ xs) g =
    accesses-threads t xs (access (enters u) g)
    ∙ ground (arith, access-can_spawn (enters u) g, contains-insert_thread t u g.threads)
accesses-threads t (leaves u ∷ xs) g =
    accesses-threads t xs (access (leaves u) g)
    ∙ ground (arith, contains-remove_thread t u g.threads)

-- Critical sections of several threads leave the same tracker, with its threads as a set, in
-- whatever order they come, as long as each thread has its own in the same order. They leave it
-- open or closed as it was; a new thread is reported if it was before, or if a thread has entered an
-- open tracker; and whether a thread is tracked is decided by its own sections, in the order of
-- either run. A thread is tracked from entering an open
-- tracker to leaving it, and entering has no effect on a closed one.
pub accesses_reordered :
    {xs ys : List Access} (g : TrackerData) (t : ℕ)
    → Reorders xs ys
    → (view (accesses xs g) ≡ view (accesses ys g))
      × ((accesses ys g).can_spawn ≡ g.can_spawn)
      × ((accesses ys g).new_thread ≡ (g.new_thread || (g.can_spawn && any_enters xs)))
      × (contains t (accesses ys g).threads ≡ tracked_by g.can_spawn t xs (contains t g.threads))
accesses_reordered {xs} {ys} g t r =
    let alike : view (accesses xs g) ≡ view (accesses ys g) =
      view-accesses xs g ∙ reordered_view (view g) r ∙ sym (view-accesses ys g) in
    (
      alike,
      accesses-can_spawn ys g,
      ap (λ (v : View). v.1) (sym alike) ∙ accesses-new_thread xs g,
      accesses-threads t ys g ∙ sym (reordered_tracked_by g.can_spawn (contains t g.threads) t r),
    )
