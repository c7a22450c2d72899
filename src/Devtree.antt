-- ===== src/Devtree.antt =====
-- taskman/sys/fdt.c: the device tree reader.
pub mod Walk
pub mod Query
pub mod Ends
pub mod Below
mod Tests
