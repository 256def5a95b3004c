-- ===== src/Channel.antt =====
-- The channels that carry messages: memory as bytes, the memory channel, addresses, and the frames
-- of the stream channel.
pub mod Bytes
pub mod Mem
pub mod Address
pub mod Stream
