-- ===== src/Math.antt =====
-- The multi-word integers, math/bigint/, with words of 32 bits.
pub mod Word
pub mod Value
pub mod Carry
pub mod Mp
pub mod Comba
pub mod Karatsuba
pub mod Multiply
pub mod Shift
pub mod BigInt
mod Tests
