-- ===== src/IoError.antt =====
-- std::io::Error and Errno as the crate uses them, and `io_cvt` of src/owner.rs.
-- An error is an operating system error with its number, or a kind chosen by the program; the
-- message texts are left out, since no code reads them.
use ulockmgr.Prelude.{ℕ, ◌≡◌, refl, ◌⊎◌, inl, inr, Option, none, some}

-- The variants of std::io::ErrorKind that the crate names. `uncategorized` stands for the others.
pub data ErrorKind : Type 0 where
  not_found permission_denied connection_refused connection_reset connection_aborted : ErrorKind
  not_connected addr_in_use addr_not_available timed_out would_block already_exists : ErrorKind
  invalid_input invalid_data deadlock broken_pipe unexpected_eof interrupted : ErrorKind
  resource_busy write_zero other uncategorized : ErrorKind

pub ErrorKind-discrete : Discrete ErrorKind
ErrorKind-discrete = hlevel

pub data IoError : Type 0 where
  -- `Error::from_raw_os_error`
  os : ℕ → IoError
  -- `Error::new(kind, _)`, `Error::other(_)`
  custom : ErrorKind → IoError

pub data Result {ℓ κ} (A : Type ℓ) (E : Type κ) : Type (ℓ ⊔ κ) where
  ok : A → Result A E
  err : E → Result A E

infixl 5 ◌>>=◌ ◌>>◌
abbrev pub ◌>>=◌ {ℓ κ} :
    {A : Type ℓ} {B : Type κ} {E : Type 0} → Result A E → (A → Result B E) → Result B E
ok a >>= f = f a
err e >>= f = err e

abbrev pub ◌>>◌ {ℓ κ} :
    {A : Type ℓ} {B : Type κ} {E : Type 0} → Result A E → Result B E → Result B E
m >> k = m >>= λ _. k

abbrev pub map_ok {ℓ κ} : {A : Type ℓ} {B : Type κ} {E : Type 0} → (A → B) → Result A E → Result B E
map_ok f (ok a) = ok (f a)
map_ok f (err e) = err e

abbrev pub map_err {ℓ} : {A : Type ℓ} {E F : Type 0} → (E → F) → Result A E → Result A F
map_err f (ok a) = ok a
map_err f (err e) = err (f e)

abbrev pub ok_or {ℓ} : {A : Type ℓ} {E : Type 0} → Option A → E → Result A E
ok_or none e = err e
ok_or (some a) e = ok a

pub Result-cases {ℓ} :
    {A : Type ℓ} {E : Type 0} (r : Result A E) → ((a : A) × (r ≡ ok a)) ⊎ ((e : E) × (r ≡ err e))
Result-cases (ok a) = inl (a, refl)
Result-cases (err e) = inr (e, refl)

-- The error numbers of the platform, and the standard library's reading of a number as a kind.
pub record Errnos : Type 0 where
  pub enoent : ℕ
  pub eperm : ℕ
  pub econnrefused : ℕ
  pub econnreset : ℕ
  pub econnaborted : ℕ
  pub enotconn : ℕ
  pub eaddrinuse : ℕ
  pub eaddrnotavail : ℕ
  pub etimedout : ℕ
  pub ewouldblock : ℕ
  pub eexist : ℕ
  pub einval : ℕ
  pub edeadlock : ℕ
  pub eio : ℕ
  pub eagain : ℕ
  pub decode_error_kind : ℕ → ErrorKind

module _ (n : Errnos) where
  -- `Error::kind`
  unfoldable pub kind : IoError → ErrorKind
  kind (os e) = n.decode_error_kind e
  kind (custom k) = k

  -- The inner match of `io_cvt`.
  unfoldable pub errno_of_kind : ErrorKind → ℕ
  errno_of_kind not_found = n.enoent
  errno_of_kind permission_denied = n.eperm
  errno_of_kind connection_refused = n.econnrefused
  errno_of_kind connection_reset = n.econnreset
  errno_of_kind connection_aborted = n.econnaborted
  errno_of_kind not_connected = n.enotconn
  errno_of_kind addr_in_use = n.eaddrinuse
  errno_of_kind addr_not_available = n.eaddrnotavail
  errno_of_kind timed_out = n.etimedout
  errno_of_kind would_block = n.ewouldblock
  errno_of_kind already_exists = n.eexist
  errno_of_kind invalid_input = n.einval
  errno_of_kind invalid_data = n.einval
  errno_of_kind deadlock = n.edeadlock
  errno_of_kind other = n.eio
  errno_of_kind _ = n.eio

  unfoldable pub errno_of : IoError → ℕ
  unfolding errno_of_kind
  errno_of (os e) = e
  errno_of (custom k) = errno_of_kind k

  unfoldable pub io_cvt {ℓ} : {A : Type ℓ} → Result A IoError → Result A ℕ
  unfolding errno_of
  io_cvt r = map_err errno_of r
