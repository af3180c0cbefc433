-- ===== src/MyAsync.antt =====
-- src/libs/my_async: sessions, clients and containers over Boost.Asio.
pub mod ClientContainer
pub mod Registry
pub mod SerialContainer
pub mod WriteQueue
pub mod UdpClientSession
pub mod WebsocketSession
pub mod ListenerContainer
pub mod ServerSession
pub mod ClientSession
