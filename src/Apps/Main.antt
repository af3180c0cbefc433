-- ===== src/Apps/Main.antt =====
-- src/apps/main.
pub mod Parser
pub mod Make
mod Examples
