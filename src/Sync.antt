-- ===== src/Sync.antt =====
-- libc/qsoe/sync.c, the wait/wake table behind mutexes, condition variables and semaphores.
pub mod Entry
pub mod Table
pub mod Fifo
pub mod Slots
pub mod Refine
pub mod Wakeups
pub mod Reach
mod Tests
