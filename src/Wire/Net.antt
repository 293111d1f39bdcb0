-- ===== src/Wire/Net.antt =====
-- The socket calls of src/messages.rs as an interface, with the errors and states of a call chained.
use ulockmgr.Prelude.{ℕ, Bool, List}
use ulockmgr.IoError.{IoError, os, Result, ok, err, map_err}
use ulockmgr.Messages.Traits.{OwnedFd}

-- A control message: descriptors, or one of another kind.
pub data Ancillary : Type 0 where
  scm_rights : List OwnedFd → Ancillary
  unexpected : Ancillary

-- What `recvmsg` has put into the buffers, in the order of the buffers; `message.bytes` is the
-- length of the data.
pub record Received : Type 0 where
  pub bytes : List ℕ
  pub ancillary : List Ancillary

pub record Net : Type 1 where
  pub World : Type 0
  -- the byte order and the largest usize
  pub big : Bool
  pub usize_max : ℕ
  -- the length of the buffers together, the descriptors there is room for, and MSG_PEEK; always
  -- with MSG_WAITALL
  pub recvmsg : OwnedFd → (len room : ℕ) → (peek : Bool) → World → Result Received ℕ × World
  -- the bytes of the buffers, and the descriptors; the answer is the number of bytes taken
  pub sendmsg : OwnedFd → List ℕ → List OwnedFd → World → Result ℕ ℕ × World
  pub socketpair : World → Result (OwnedFd × OwnedFd) ℕ × World

module _ (net : Net) where
  abbrev pub Io : Type 0 → Type 0
  Io A = net.World → Result A IoError × net.World

module _ {W A : Type 0} where
  abbrev pub lift : Result A IoError → W → Result A IoError × W
  lift r w = (r, w)

  -- `?` on the result of a system call
  abbrev pub call : (W → Result A ℕ × W) → W → Result A IoError × W
  call f w = let (r, w') = f w in (map_err os r, w')

infixl 5 ◌>>=◌
abbrev pub ◌>>=◌ :
    {W A B : Type 0}
    → (W → Result A IoError × W)
    → (A → W → Result B IoError × W)
    → W
    → Result B IoError × W
◌>>=◌ m f w = let (r, w') = m w in elim r [ ok a ↦ f a w' | err e ↦ (err e, w') ]
