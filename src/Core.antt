-- ===== src/Core.antt =====
-- src/core: messages, the registry of applications, and the session of a user of the daemon.
pub mod Message
pub mod Dispatcher
pub mod Outbox
pub mod Factory
pub mod Answers
pub mod Session
