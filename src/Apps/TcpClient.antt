-- ===== src/Apps/TcpClient.antt =====
-- src/apps/tcp_client.
pub mod Parser
pub mod Make
pub mod Handler
mod Examples
