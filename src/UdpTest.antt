-- ===== src/UdpTest.antt =====
-- The two programs of udpTest.
pub mod Server
pub mod Served
pub mod Client
pub mod Exchange
