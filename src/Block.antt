-- ===== src/Block.antt =====
-- The block ciphers, block_cipher.h: what a mode of operation relies on, and a cipher for each child.
pub mod Octets
pub mod Cipher
pub mod Tea
pub mod Xtea
pub mod Parts
pub mod LubyRackoff
pub mod Lion
mod Tests
