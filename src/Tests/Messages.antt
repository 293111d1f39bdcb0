-- ===== src/Tests/Messages.antt =====
-- Messages on concrete input.
use ulockmgr.Prelude.{ℕ, ◌≡◌, List, [], ◌∷◌}
use ulockmgr.IoError.{ok}
use ulockmgr.Messages.Message.{Message, register}
use ulockmgr.Messages.Message
use ulockmgr.Messages.RoundTrip.{message_roundtrip}

abbrev a_register : Message
a_register = register (record { fd = 7 })

message_roundtrip_example :
    Message.deserialize (Message.serialize a_register).0 (Message.serialize a_register).1
    ≡ ok a_register
message_roundtrip_example = message_roundtrip a_register

abbrev two_fds : List ℕ
two_fds = 7 ∷ 8 ∷ []
