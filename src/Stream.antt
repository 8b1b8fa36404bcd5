-- ===== src/Stream.antt =====
-- The stream ciphers, stream/.
pub mod Arc4
