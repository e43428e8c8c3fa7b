-- ===== src/Buffer.antt =====
-- The byte buffers of io/io_event.h and util/double_buffering.h, over a block of memory.
pub mod Memory
pub mod Recv
pub mod Send
pub mod LockFree
pub mod Double
