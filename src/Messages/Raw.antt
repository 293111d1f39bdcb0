-- ===== src/Messages/Raw.antt =====
-- `RawMessage` of src/messages.rs: what is encoded on the socket.
use ulockmgr.Prelude.{ℕ}
use ulockmgr.Types.{LockAction, LockParams}

pub data RawMessage : Type 0 where
  ping : RawMessage
  interrupt : (id : ℕ) → RawMessage
  remove_interrupt : (id : ℕ) → RawMessage
  register : RawMessage
  unregister : (id : ℕ) → RawMessage
  lock_command : (id : ℕ) (action : LockAction) (params : LockParams) → RawMessage
