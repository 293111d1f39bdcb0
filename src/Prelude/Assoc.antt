-- ===== src/Prelude/Assoc.antt =====
-- A concurrent hash map keyed by u64 as an association list: what the source calls on `DashMap`.
use Prim.Native.Nat.{ℕ, ◌+◌, ◌≤◌, ◌<◌}
use mathlib.Core.Path.{◌≡◌, refl, ap}
use mathlib.Core.Logic.{◌≢◌}
use mathlib.Core.List.{List, [], ◌∷◌}
use mathlib.Core.Option.{Option, none, some}
use native.Mathlib.Omega.{arith}
use ulockmgr.Prelude.Tests.{◌==◌, if◌then◌else◌}
use ulockmgr.Prelude.Lists.{length}

abbrev pub Assoc {ℓ} : Type ℓ → Type ℓ
Assoc V = List (ℕ × V)

module _ {ℓ} {V : Type ℓ} where
  unfoldable pub get : ℕ → Assoc V → Option V
  get k [] = none
  get k ((j, v) ∷ m) = if j == k then some v else get k m

  -- `Entry::Vacant(e) => e.insert(v)`: the key is not there.
  abbrev pub insert : ℕ → V → Assoc V → Assoc V
  insert k v m = (k, v) ∷ m

  unfoldable pub remove : ℕ → Assoc V → Assoc V
  remove k [] = []
  remove k ((j, v) ∷ m) = let rest = remove k m in if j == k then rest else (j, v) ∷ rest

  -- A write at a key that is there.
  unfoldable pub put : ℕ → V → Assoc V → Assoc V
  put k v [] = []
  put k v ((j, x) ∷ m) = if j == k then (j, v) ∷ m else (j, x) ∷ put k v m

  pub get-insert :
      (k j : ℕ) (v : V) (m : Assoc V) → get j (insert k v m) ≡ (if k == j then some v else get j m)
  unfolding get
  get-insert k j v m = refl

  pub get-remove : (k j : ℕ) (m : Assoc V) → get j (remove k m) ≡ (if k == j then none else get j m)
  unfolding get remove
  get-remove k j [] = ground arith
  get-remove k j ((i, v) ∷ m) = ground (arith, get-remove k j m)

  pub length-remove-le : (k : ℕ) (m : Assoc V) → length (remove k m) ≤ length m
  unfolding remove
  length-remove-le k [] = omega arith
  length-remove-le k ((j, v) ∷ m) = ground (arith, length-remove-le k m)

  pub length-remove-lt : (k : ℕ) (m : Assoc V) → get k m ≢ none → length (remove k m) < length m
  unfolding get remove
  length-remove-lt k [] h = absurd (h refl)
  length-remove-lt k ((j, v) ∷ m) h = ground (arith, length-remove-lt k m, length-remove-le k m)

  -- No key stands twice: the invariant of a map.
  abbrev pub Distinct : Assoc V → Type ℓ
  Distinct [] = Unit
  Distinct ((k, v) ∷ m) = (get k m ≡ none) × Distinct m

  pub remove-Distinct : (k : ℕ) (m : Assoc V) → Distinct m → Distinct (remove k m)
  unfolding remove
  remove-Distinct k [] d = tt
  remove-Distinct k ((j, v) ∷ m) d = ground (arith, remove-Distinct k m d.1, get-remove k j m)

  pub get-put :
      (k j : ℕ) (v : V) (m : Assoc V)
      → get k m ≢ none
      → get j (put k v m) ≡ (if k == j then some v else get j m)
  unfolding get put
  get-put k j v [] h = absurd (h refl)
  get-put k j v ((i, x) ∷ m) h = ground (arith, get-put k j v m)

  pub length-put : (k : ℕ) (v : V) (m : Assoc V) → length (put k v m) ≡ length m
  unfolding put
  length-put k v [] = refl
  length-put k v ((j, x) ∷ m) = ground (arith, length-put k v m)

  pub get-put-none : (k j : ℕ) (v : V) (m : Assoc V) → get j m ≡ none → get j (put k v m) ≡ none
  unfolding get put
  get-put-none k j v [] h = refl
  get-put-none k j v ((i, x) ∷ m) h = ground (arith, get-put-none k j v m)

  pub put-Distinct : (k : ℕ) (v : V) (m : Assoc V) → Distinct m → Distinct (put k v m)
  unfolding put
  put-Distinct k v [] d = tt
  put-Distinct k v ((j, x) ∷ m) d = ground (arith, put-Distinct k v m d.1, get-put-none k j v m d.0)

  pub remove-none : (k : ℕ) (m : Assoc V) → get k m ≡ none → remove k m ≡ m
  unfolding get remove
  remove-none k [] h = refl
  remove-none k ((j, v) ∷ m) h = ground (arith, remove-none k m)

  pub length-remove :
      (k : ℕ) (m : Assoc V) → Distinct m → get k m ≢ none → length (remove k m) + 1 ≡ length m
  unfolding get remove
  length-remove k [] d h = absurd (h refl)
  length-remove k ((j, v) ∷ m) d h =
      ground (arith, length-remove k m d.1, ap length (remove-none j m d.0))

  pub put-nil : (k : ℕ) (v : V) (m : Assoc V) → m ≡ [] → put k v m ≡ []
  unfolding put
  put-nil k v m e = rw e refl

  pub remove-nil : (k : ℕ) (m : Assoc V) → m ≡ [] → remove k m ≡ []
  unfolding remove
  remove-nil k m e = rw e refl
