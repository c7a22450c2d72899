-- ===== src/Chan.antt =====
-- taskman/proc/pulse.c and connect.c: the channels, the connections to them and their pulses.
pub mod State
pub mod Pulse
pub mod Connect
pub mod Ring
pub mod Found
pub mod Wired
pub mod Deliver
pub mod Drop
pub mod Dup
pub mod Attach
pub mod Sample
mod Tests
