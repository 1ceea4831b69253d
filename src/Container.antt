-- ===== src/Container.antt =====
-- src/container.rs: the typed payload of a container.
pub mod Run
pub mod Lows
pub mod Payload
pub mod Content
pub mod Elements
pub mod Read
mod Tests
