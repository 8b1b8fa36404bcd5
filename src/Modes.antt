-- ===== src/Modes.antt =====
-- The modes of operation, modes/: padding methods.
pub mod Padding
mod Tests
