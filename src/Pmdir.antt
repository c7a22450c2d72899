-- ===== src/Pmdir.antt =====
-- taskman/path/pmdir.c
pub mod Table
pub mod Listing
mod Tests
