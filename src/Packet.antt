-- ===== src/Packet.antt =====
-- net/packet.h, net/packet.cpp and net/packet_extension: the packets and their wire format.
pub mod Field
pub mod Id
pub mod Size
pub mod Handshake
pub mod SetBlock
pub mod SetPlayerPosition
pub mod Chat
pub mod Session
pub mod Extension
pub mod Consume
pub mod RoundTrip
pub mod Length
pub mod Movement
