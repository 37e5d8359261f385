-- ===== src/Security.antt =====
pub mod Crypto
pub mod Handshake
