-- ===== src/Registrar.antt =====
-- sip/registrar.rs: the registrations, the digest authentication, and the two defences around it.
pub mod State
pub mod Blocking
pub mod Nonces
pub mod Table
pub mod Digest
pub mod Register
