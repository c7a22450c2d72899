-- ===== src/Proc.antt =====
-- taskman/proc: process.c, thread.c and what of channel.c and connect.c calls the kernel.
pub mod State
pub mod Monad
pub mod Slots
pub mod Table
pub mod Threads
pub mod Channels
pub mod Terminate
pub mod Info
pub mod Quiet
pub mod Closing
pub mod Lifecycle
pub mod Waiting
pub mod Detached
pub mod Net
pub mod Wiring
pub mod Attached
pub mod Stranded
pub mod Pipes
pub mod Sample
pub mod Roomy
mod Tests
