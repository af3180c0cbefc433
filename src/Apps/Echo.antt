-- ===== src/Apps/Echo.antt =====
-- src/apps/echo.
pub mod Parser
pub mod Handler
mod Examples
