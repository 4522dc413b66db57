-- ===== src/Wire.antt =====
-- Connections: internal/wire. What a socket gives is given as a list, or as a step that may happen.
pub mod TcpControlClient
pub mod TcpControlServer
pub mod UdpControlServer
pub mod MulticastCommunicator
