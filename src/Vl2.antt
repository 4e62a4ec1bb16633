-- ===== src/Vl2.antt =====
-- internal/vl2: the virtual Ethernet layer.
pub mod Frame
pub mod Mac
pub mod Eviction
pub mod Sender
pub mod Switch
pub mod Arp
mod Tests
