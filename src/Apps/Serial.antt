-- ===== src/Apps/Serial.antt =====
-- src/apps/serial.
pub mod Parser
pub mod Make
pub mod Handler
mod Examples
