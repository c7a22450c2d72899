-- ===== src/Rsrcdb.antt =====
-- taskman/sys/rsrcdb.c, the resource manager database.
pub mod Entry
pub mod Db
pub mod Calls
pub mod Totals
pub mod Listed
pub mod Sums
pub mod Carve
pub mod Inv
pub mod Keeps
pub mod Cover
pub mod Grant
pub mod Ownership
pub mod Start
pub mod Seed
mod Tests
