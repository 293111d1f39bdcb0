-- ===== src/Types/Accepted.antt =====
-- The `flock` structures that src/types.rs accepts, against its own lock parameters.
use std.Equiv.{IsEquiv, iso_to_equiv}
use mathlib.Core.HLevel.{Σ_prop_path}
use mathlib.Core.Bool.{Bool-set}
use ulockmgr.Prelude.{◌^◌, ◌≡◌, refl, Bool, true, false, ltb, ◌&&◌, arith}
use ulockmgr.IoError.{Result, ok, err}
use ulockmgr.Types.Encoding.{
  Libc, IsLibc, LockParams, Flock, params_try_from, params_into_flock, as_i16, type_into_i16,
  whence_into_i16,
}
use ulockmgr.Types.RoundTrip.{params_roundtrip, params_into_flock-params_try_from}

abbrev is_ok : {A E : Type 0} → Result A E → Bool
is_ok (ok _) = true
is_ok (err _) = false

value : {A E : Type 0} (r : Result A E) → is_ok r ≡ true → A
value (ok a) h = a
value (err _) h = absurd (cc)

value-ok : {A E : Type 0} (r : Result A E) (h : is_ok r ≡ true) → r ≡ ok (value r h)
unfolding value
value-ok (ok a) h = refl
value-ok (err _) h = absurd (cc)

ok-value : {A E : Type 0} (r : Result A E) (a : A) (h : is_ok r ≡ true) → r ≡ ok a → value r h ≡ a
ok-value r a h e = let q = value-ok r h in cc

-- A `flock` whose type and whence are bit patterns of 16 bits, and which is accepted.
abbrev pub accepted : Libc → Flock → Bool
accepted c f = (ltb f.l_type (2 ^ 16) && ltb f.l_whence (2 ^ 16)) && is_ok (params_try_from c f)

abbrev pub AcceptedFlock : Libc → Type 0
AcceptedFlock c = (f : Flock) × (accepted c f ≡ true)

module _ (c : Libc) (w : IsLibc c) where
  params-accepted : (p : LockParams) → accepted c (params_into_flock c p) ≡ true
  unfolding params_into_flock type_into_i16 whence_into_i16 as_i16
  params-accepted p = ground (arith, params_roundtrip c w p, w.types_fit, w.whences_fit)

  -- `From<LockParams> for libc::flock`, into those that are accepted.
  pub into_accepted : LockParams → AcceptedFlock c
  into_accepted p = (params_into_flock c p, params-accepted p)

  read_accepted : AcceptedFlock c → LockParams
  read_accepted (f, h) = value (params_try_from c f) (ground (arith, h))

  -- With constants that differ and fit, the conversion of lock parameters into a `flock` is an equivalence between
  -- them and the structures of 16-bit type and whence that are accepted: each of these stands for exactly
  -- one value, and is what this value is written as.
  pub into_accepted-IsEquiv : IsEquiv into_accepted
  unfolding into_accepted read_accepted
  into_accepted-IsEquiv =
      (iso_to_equiv (record {
        fun = into_accepted;
        inv = read_accepted;
        rinv = λ b.
            Σ_prop_path (λ f. Bool-set _ _)
              (params_into_flock-params_try_from c w b.0 (read_accepted b) (ground (arith, b.1))
                (ground (arith, b.1)) (value-ok (params_try_from c b.0) (ground (arith, b.1))));
        linv = λ p.
            ok-value (params_try_from c (params_into_flock c p)) p
              (ground (arith, params-accepted p)) (params_roundtrip c w p);
      })).1
