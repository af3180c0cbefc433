-- ===== src/Apps/TcpServer.antt =====
-- src/apps/tcp_server.
pub mod Parser
pub mod Make
pub mod Handler
mod Examples
