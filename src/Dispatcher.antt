-- ===== src/Dispatcher.antt =====
-- dispatcher.c: the messages of the server and what they do.
pub mod World
pub mod Handlers
pub mod Get
pub mod Table
pub mod Routes
pub mod Position
pub mod Identity
pub mod Identify
pub mod Power
pub mod Saved
pub mod Kept
pub mod Returns
pub mod Run
pub mod Example
mod Tests
