-- ===== src/Path.antt =====
-- taskman/path/io.c
pub mod Io
pub mod Files
pub mod Contexts
pub mod Linked
mod Tests
