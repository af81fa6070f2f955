-- ===== src/Example.antt =====
-- regression/src/example: stand-alone programs that try out what the simulator is made of.
mod Tests
pub mod SyncClock
pub mod Garbage
