-- ===== src/Vl1.antt =====
-- internal/vl1: the peer-to-peer transport layer.
pub mod Packet
pub mod Noise
pub mod Cipher
pub mod Peer
pub mod Manager
mod Tests
