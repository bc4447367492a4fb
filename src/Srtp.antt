-- ===== src/Srtp.antt =====
-- media/srtp.rs: SRTP protection of RTP packets under keys exchanged by SDES.
pub mod Suite
pub mod Header
pub mod Rollover
pub mod Cipher
pub mod Packet
pub mod Sdes
pub mod Toy
mod Tests
