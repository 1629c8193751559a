-- ===== src/Main.antt =====
-- main.c: the start of the application, the confirmation of a new image, and the shutdown.
pub mod Confirm
pub mod Waits
pub mod Timely
pub mod Boot
pub mod Order
pub mod Reset
mod Tests
