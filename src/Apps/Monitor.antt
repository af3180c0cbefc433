-- ===== src/Apps/Monitor.antt =====
-- src/apps/monitor: the report on the daemon itself that a timer repeats.
pub mod Parser
pub mod Executor
pub mod Timer
pub mod Handler
mod Examples
