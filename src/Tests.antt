-- ===== src/Tests.antt =====
-- Runs of the models on concrete input: a Linux platform, small kernels and sockets, and schedules of
-- the threads of an owner process. Each witness applies a theorem at such an input.
mod Platform
mod Types
mod Messages
mod Daemon
mod Client
mod Protocol
mod Manager
mod Masks
mod Spawner
mod Wire
mod Loops
mod Processes
mod Registration
mod Creation
mod Callers
mod Guards
mod Codecs
mod Locking
mod Session
mod Query
