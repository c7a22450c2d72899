-- ===== src/Timer.antt =====
-- taskman/proc/timer.c: sleepers, interval timers and the sweep.
pub mod Ticks
pub mod Sweep
pub mod Order
mod Tests
