-- ===== src/Daemon/Invariant.antt =====
-- What every step of the threads of src/owner.rs keeps: the counts of the files, in `Arcs`, the ID
-- maps, in `Files`, and the threads, in `Calls` and `Steps`.
mod Defs
mod Arcs
mod Files
mod Calls
mod Steps
unfoldable pub use Defs.*
pub use Arcs.{strong-clone_arc}
pub use Files.{handle_fd_register-cases, entered}
pub use Calls.{
  handle_interrupt_remove-keeps, handle_interrupt_add-keeps, try_exit-keeps, tasks_hold-middle,
  strong-nil, strong-length, mapped-unregister_remove,
}
pub use Steps.{clone_arc-keeps, drop_arc-keeps, Step-Inv, Inv-start, mapped-pos}
