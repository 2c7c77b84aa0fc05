-- ===== src/Network.antt =====
-- The network messages and their encryption.
pub mod Message
pub mod Xtea
pub mod Checksum
pub mod Frames
mod Examples
