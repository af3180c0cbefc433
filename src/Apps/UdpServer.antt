-- ===== src/Apps/UdpServer.antt =====
-- src/apps/udp_server.
pub mod Parser
pub mod Make
pub mod Handler
