-- ===== src/Network.antt =====
-- The network library: network.
pub mod Buffer
pub mod Channel
pub mod Connection
pub mod Loop
pub mod Poll
pub mod TcpServer
