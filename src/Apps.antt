-- ===== src/Apps.antt =====
-- The applications that the daemon runs.
pub mod Endpoint
pub mod Handler
pub mod InData
pub mod Echo
pub mod Init
pub mod Main
pub mod Monitor
pub mod Samples
pub mod Serial
pub mod TcpClient
pub mod TcpServer
pub mod UdpClient
pub mod UdpServer
