-- ===== src/Filters.antt =====
-- filters/: the queue of bytes between filters.
pub mod SecureQueue
