-- ===== src/Apps/UdpClient.antt =====
-- src/apps/udp_client.
pub mod Parser
pub mod Make
pub mod Handler
mod Examples
