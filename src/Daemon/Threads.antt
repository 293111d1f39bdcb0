-- ===== src/Daemon/Threads.antt =====
-- The threads of an owner process and their trackers: src/owner.rs with src/tracker.rs.
mod Defs
mod Weaken
mod Counts
mod Special
mod Steps
pub mod Quiet
pub mod Work
mod Progress
pub mod Rest
unfoldable pub use Defs.*
pub use Weaken.{tally-middle}
pub use Steps.{Reach-Tracked}
