-- ===== src/Dev.antt =====
-- Devices: core/dev.
pub mod Block
pub mod Tty
pub mod Urandom
