-- ===== src/Tests.antt =====
-- The theorems at concrete values.
pub mod Broadcasts
pub mod Buffers
pub mod Commands
pub mod Connections
pub mod Games
pub mod Interleavings
pub mod Intervals
pub mod Logins
pub mod Messages
pub mod Packets
pub mod Pools
pub mod Servers
pub mod Worlds
