-- ===== src/Cpiofs.antt =====
-- taskman/path/cpiofs.c: the file system over the embedded archive.
pub mod Scan
pub mod File
pub mod Ends
pub mod Reads
pub mod Dir
pub mod Freed
mod Tests
