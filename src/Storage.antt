-- ===== src/Storage.antt =====
-- storage.c: the database of the device, its series of measurements, and its image in flash.
pub mod Data
pub mod Meters
pub mod Callbacks
pub mod Series
pub mod Mapper
pub mod Nvs
pub mod Dump
pub mod Room
pub mod Filled
pub mod Committed
pub mod Persist
pub mod Written
pub mod Restart
pub mod Steps
pub mod Durable
pub mod Survives
pub mod First
pub mod Race
pub mod Dumps
pub mod Requests
pub mod Example
mod Tests
