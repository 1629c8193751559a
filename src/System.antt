-- ===== src/System.antt =====
-- The device as a whole: the modules under main/ that share the storage and the update, composed.
pub mod Device
pub mod Register
pub mod Told
pub mod Starts
pub mod Regular
pub mod Refines
pub mod Sound
pub mod Serves
mod Booted
mod Tests
