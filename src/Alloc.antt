-- ===== src/Alloc.antt =====
-- taskman/proc/process.c: the allocators of pids and of capability slots.
pub mod Numbers
pub mod Fresh
mod Tests
