-- ===== src/Proto.antt =====
-- The wire protocol: internal/proto.
pub mod Error
pub mod Bytes
pub mod Writer
pub mod Ip
pub mod NetIp
pub mod Node
pub mod NodeDecoder
pub mod Event
pub mod Invalidation
pub mod EventDecoder
pub mod Header
pub mod Message
pub mod Packet
pub mod TcpPacket
