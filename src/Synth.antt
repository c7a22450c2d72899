-- ===== src/Synth.antt =====
-- taskman/path/sysfs.c, procfs.c and the devices of taskman/sys: the servers inside the task manager
-- without a store of their own.
pub mod Sysfs
pub mod Procfs
pub mod Device
pub mod Reads
pub mod Lowest
mod Tests
