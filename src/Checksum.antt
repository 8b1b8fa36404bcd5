-- ===== src/Checksum.antt =====
-- checksum/: checksums over a stream of bytes.
pub mod Adler32
pub mod Unrolled
pub mod Crc32
pub mod Crc24
