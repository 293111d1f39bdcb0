-- ===== src/Tests/Codecs.antt =====
-- Codecs for registrations, for locks of a file from its start, and for their replies.
use ulockmgr.Prelude.{ℕ, ◌≡◌, refl, sym, ap, List, [], ◌∷◌, arith}
use ulockmgr.IoError.{Result, ok, err}
use ulockmgr.Types.{LockType, LockWhence, LockParams, write, set_lock_non_blocking, get_lock_status}
use ulockmgr.Messages.Raw.{RawMessage}
use ulockmgr.Messages.LockCommand.{ReplyLockCommandData, pending, done}
use ulockmgr.Wire.Request.{Codec, Decodes}

-- Codecs for locks for writing from the start of a file.
abbrev pub encode_params : ℕ → LockType → LockWhence → List ℕ → Result (List ℕ) (Unit {0})
encode_params tag LockType.write LockWhence.start rest = ok (tag ∷ rest)
encode_params _ _ _ _ = err tt

abbrev pub from_start : ℕ → ℕ → ℕ → LockParams
from_start start len pid = record {
  lock_type = write;
  whence = LockWhence.start;
  start = start;
  len = len;
  pid = pid;
}

abbrev pub encode : RawMessage → Result (List ℕ) (Unit {0})
encode (RawMessage.lock_command id set_lock_non_blocking p) =
    encode_params id p.lock_type p.whence (p.start ∷ p.len ∷ p.pid ∷ [])
encode (RawMessage.lock_command id get_lock_status p) =
    encode_params id p.lock_type p.whence (p.start ∷ p.len ∷ p.pid ∷ 0 ∷ [])
encode RawMessage.register = ok []
encode (RawMessage.unregister id) = ok (id ∷ [])
encode _ = err tt

abbrev pub decode : List ℕ → Result RawMessage (Unit {0})
decode (id ∷ start ∷ len ∷ pid ∷ []) =
    ok (RawMessage.lock_command id set_lock_non_blocking (from_start start len pid))
decode (id ∷ start ∷ len ∷ pid ∷ _ ∷ []) =
    ok (RawMessage.lock_command id get_lock_status (from_start start len pid))
decode [] = ok RawMessage.register
decode (id ∷ []) = ok (RawMessage.unregister id)
decode _ = err tt

abbrev pub codec : Codec RawMessage
codec = record { encode = encode; decode = decode }

abbrev pub encode_reply : Result ReplyLockCommandData ℕ → Result (List ℕ) (Unit {0})
encode_reply (ok (done p)) = encode_params 0 p.lock_type p.whence (p.start ∷ p.len ∷ p.pid ∷ [])
encode_reply _ = err tt

abbrev pub decode_reply : List ℕ → Result (Result ReplyLockCommandData ℕ) (Unit {0})
decode_reply (_ ∷ start ∷ len ∷ pid ∷ []) = ok (ok (done (from_start start len pid)))
decode_reply _ = err tt

abbrev pub reply_codec : Codec (Result ReplyLockCommandData ℕ)
reply_codec = record { encode = encode_reply; decode = decode_reply }

encode_params-ok :
    (tag : ℕ) (p : LockParams) (rest bytes : List ℕ)
    → encode_params tag p.lock_type p.whence rest ≡ ok bytes
    → (bytes ≡ tag ∷ rest) × (p ≡ from_start p.start p.len p.pid)
encode_params-ok tag p rest bytes e = by_cases p.lock_type p.whence refl refl
  where
    by_cases :
        (t : LockType) (h : LockWhence)
        → p.lock_type ≡ t
        → p.whence ≡ h
        → (bytes ≡ tag ∷ rest) × (p ≡ from_start p.start p.len p.pid)
    by_cases LockType.write LockWhence.start et eh =
        (ground (arith, e, et, eh), ground (arith, et, eh))
    by_cases LockType.read h et eh = absurd (ground (arith, e, et, eh))
    by_cases LockType.unlock h et eh = absurd (ground (arith, e, et, eh))
    by_cases LockType.write LockWhence.current et eh = absurd (ground (arith, e, et, eh))
    by_cases LockType.write LockWhence.end et eh = absurd (ground (arith, e, et, eh))

pub codec-Decodes : Decodes codec
codec-Decodes (RawMessage.lock_command id set_lock_non_blocking p) bytes e =
    let (e₁, e₂) = encode_params-ok id p (p.start ∷ p.len ∷ p.pid ∷ []) bytes e in
    rw e₁ (ap (λ q. ok (RawMessage.lock_command id set_lock_non_blocking q)) (sym e₂))
codec-Decodes (RawMessage.lock_command id get_lock_status p) bytes e =
    let (e₁, e₂) = encode_params-ok id p (p.start ∷ p.len ∷ p.pid ∷ 0 ∷ []) bytes e in
    rw e₁ (ap (λ q. ok (RawMessage.lock_command id get_lock_status q)) (sym e₂))
codec-Decodes RawMessage.register bytes e = ground arith
codec-Decodes (RawMessage.unregister id) bytes e = ground arith
codec-Decodes _ bytes e = absurd (ground arith)

pub reply_codec-Decodes : Decodes reply_codec
reply_codec-Decodes (ok (done p)) bytes e =
    let (e₁, e₂) = encode_params-ok 0 p (p.start ∷ p.len ∷ p.pid ∷ []) bytes e in
    rw e₁ (ap (λ q. ok (ok (done q))) (sym e₂))
reply_codec-Decodes (ok (pending _)) bytes e = absurd (ground arith)
reply_codec-Decodes (err _) bytes e = absurd (ground arith)

-- The replies `Ok(id)` of a registration, and `Ok(())`.
abbrev pub encode_id : Result ℕ ℕ → Result (List ℕ) (Unit {0})
encode_id (ok id) = ok (id ∷ 0 ∷ 0 ∷ 0 ∷ [])
encode_id (err _) = err tt

abbrev pub decode_id : List ℕ → Result (Result ℕ ℕ) (Unit {0})
decode_id (id ∷ _) = ok (ok id)
decode_id [] = err tt

abbrev pub id_codec : Codec (Result ℕ ℕ)
id_codec = record { encode = encode_id; decode = decode_id }

pub id_codec-Decodes : Decodes id_codec
id_codec-Decodes (ok id) bytes e = ground arith
id_codec-Decodes (err _) bytes e = absurd (ground arith)

abbrev pub encode_unit : Result (Unit {0}) ℕ → Result (List ℕ) (Unit {0})
encode_unit (ok _) = ok (0 ∷ 0 ∷ 0 ∷ 0 ∷ [])
encode_unit (err _) = err tt

abbrev pub unit_codec : Codec (Result (Unit {0}) ℕ)
unit_codec = record { encode = encode_unit; decode = λ _. ok (ok tt) }

pub unit_codec-Decodes : Decodes unit_codec
unit_codec-Decodes (ok tt) bytes e = refl
unit_codec-Decodes (err _) bytes e = absurd (ground arith)
