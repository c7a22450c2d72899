-- ===== src/Syscfg.antt =====
-- taskman/sys/syscfg.c: the system configuration blob.
pub mod Blob
pub mod Build
pub mod RoundTrip
mod Tests
