-- ===== src/Inverter.antt =====
-- The measurements of the inverter: inverter.c, msg_handlers.c and private/em/defs.h.
pub mod Meas
pub mod Energy
pub mod Status
pub mod Grid
pub mod State
pub mod Output
pub mod Store
pub mod History
pub mod Handlers
pub mod Polled
pub mod Ledger
pub mod Conserved
pub mod Mode
pub mod Example
mod Tests
