-- ===== src/Rs232.antt =====
-- The serial protocol of the inverter.
pub mod Crc
pub mod Command
pub mod Memory
pub mod Response
pub mod Parsers
pub mod Words
pub mod Values
pub mod Scanf
pub mod Scanned
pub mod Packet
pub mod Frame
pub mod Example
mod Tests
