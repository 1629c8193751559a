-- ===== src/Update.antt =====
-- update.c: the update of the firmware.
pub mod Version
pub mod State
pub mod Image
pub mod Events
pub mod Array
pub mod Refused
pub mod Buffer
pub mod Returns
mod Tests
