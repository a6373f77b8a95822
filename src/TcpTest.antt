-- ===== src/TcpTest.antt =====
-- The two programs of tcpTest.
pub mod Server
pub mod Client
