-- ===== src/Messages/RequestSpawnOwner.antt =====
-- `RequestSpawnOwner` of src/messages.rs: ask the coordinator for an owner process.
use ulockmgr.Prelude.{ℕ, List, []}
use ulockmgr.IoError.{IoError, Result, ok, err}
use ulockmgr.Messages.Traits.{OwnedFd, Serializable, Reply, new_reply, Replyable}

-- std::time::Duration
pub record Duration : Type 0 where
  pub secs : ℕ
  pub nanos : ℕ

pub record RequestSpawnOwner : Type 0 where
  pub ttl : Duration

-- `RequestSpawnOwner::new`
abbrev pub new_request : Duration → RequestSpawnOwner
new_request ttl = record { ttl = ttl }

unfoldable pub serialize : RequestSpawnOwner → Duration × List OwnedFd
serialize m = (m.ttl, [])

unfoldable pub deserialize : Duration → List OwnedFd → Result RequestSpawnOwner IoError
deserialize payload fds = ok (record { ttl = payload })

instance abbrev pub serializable : Serializable RequestSpawnOwner
serializable = record { Payload = Duration; serialize = serialize; deserialize = deserialize }

abbrev pub ReplyRequestSpawnOwner : Type 0
ReplyRequestSpawnOwner = Reply (Unit {0})

unfoldable pub create_reply : OwnedFd → ReplyRequestSpawnOwner
create_reply fd = new_reply fd

-- How a call of `ReplyRequestSpawnOwner::reply` ends. It sends nothing: an Ok reply wants a
-- descriptor.
pub data Ending : Type 0 where
  returned panicked : Ending

unfoldable pub reply : ReplyRequestSpawnOwner → Result (Unit {0}) ℕ → Ending
reply r (ok _) = panicked
reply r (err _) = returned

instance abbrev pub replyable : Replyable RequestSpawnOwner
replyable = record { ReplyType = Unit {0}; create_reply = create_reply }
