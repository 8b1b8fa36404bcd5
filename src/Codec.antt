-- ===== src/Codec.antt =====
-- The codecs, codec/: filters that turn bytes into text and back.
pub mod Hex
mod Tests
