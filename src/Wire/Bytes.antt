-- ===== src/Wire/Bytes.antt =====
-- `u64::to_ne_bytes` and `u64::from_ne_bytes`, for either byte order.
use mathlib.Core.List.{reverse}
use ulockmgr.Prelude.{
  ℕ, zero, suc, ◌+◌, ◌*◌, ◌/◌, ◌%◌, ◌^◌, ◌<◌, ◌≡◌, refl, ap, Bool, true, false, List, [], ◌∷◌,
  arith, length,
}

-- The lowest byte first.
unfoldable pub le_bytes : ℕ → ℕ → List ℕ
le_bytes zero n = []
le_bytes (suc k) n = n % 256 ∷ le_bytes k (n / 256)

unfoldable pub of_le_bytes : List ℕ → ℕ
of_le_bytes [] = 0
of_le_bytes (b ∷ bs) = b + 256 * of_le_bytes bs

-- The flag says whether the platform puts the highest byte first.
unfoldable pub to_ne_bytes : Bool → ℕ → List ℕ
unfolding le_bytes
to_ne_bytes false n = le_bytes 8 n
to_ne_bytes true n = reverse (le_bytes 8 n)

unfoldable pub from_ne_bytes : Bool → List ℕ → ℕ
unfolding of_le_bytes
from_ne_bytes false bs = of_le_bytes bs
from_ne_bytes true bs = of_le_bytes (reverse bs)

length-le_bytes : (k n : ℕ) → length (le_bytes k n) ≡ k
unfolding le_bytes
length-le_bytes zero n = refl
length-le_bytes (suc k) n = ap suc (length-le_bytes k (n / 256))

of_le_bytes-le_bytes : (n : ℕ) → n < 2 ^ 64 → of_le_bytes (le_bytes 8 n) ≡ n
unfolding of_le_bytes le_bytes
of_le_bytes-le_bytes n h = omega arith

-- A 64-bit number has eight bytes, and is read back from them, whatever the byte order.
pub ne_bytes_roundtrip :
    (big : Bool) (n : ℕ) → n < 2 ^ 64 → from_ne_bytes big (to_ne_bytes big n) ≡ n
unfolding to_ne_bytes from_ne_bytes
ne_bytes_roundtrip false n h = of_le_bytes-le_bytes n h
ne_bytes_roundtrip true n h = of_le_bytes-le_bytes n h

pub length-to_ne_bytes : (big : Bool) (n : ℕ) → length (to_ne_bytes big n) ≡ 8
unfolding to_ne_bytes le_bytes
length-to_ne_bytes false n = refl
length-to_ne_bytes true n = refl
