-- ===== src/Mem.antt =====
-- taskman/mem/mmap.c: the memory manager.
pub mod Space
pub mod Anonymous
pub mod Unmap
pub mod Device
pub mod Physical
pub mod Protect
pub mod Mapped
pub mod Entries
pub mod Unmapped
pub mod Returned
pub mod Skipped
pub mod Protected
pub mod Wraps
mod Tests
