-- ===== src/Tests/Daemon.antt =====
-- Runs of the owner process: schedules of its threads, and its handlers on concrete input.
pub mod Schedule
mod Handlers
mod Loops
mod Threads
