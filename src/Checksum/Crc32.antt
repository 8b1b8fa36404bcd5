-- ===== src/Checksum/Crc32.antt =====
-- checksum/crc32/crc32.cpp: CRC-32. The state is the member `crc`.
pub mod Table
pub mod Spec
mod Tests
use php_botan.Base.{ℕ, ◌/◌, List, get_or, length, bit_and, bit_xor}
use php_botan.Base.Words.{shr32, store_be}
use php_botan.Checksum.Unrolled.{add_rounds}
use Table.{table}

-- `clear()`
abbrev pub initial : ℕ
initial = 0xFFFFFFFF

-- `TABLE[(tmp ^ b) & 0xFF] ^ (tmp >> 8)`
pub crc_step : ℕ → ℕ → ℕ
crc_step tmp b = bit_xor (get_or table (bit_and (bit_xor tmp b) 0xFF) 0) (shr32 tmp 8)

pub add_data : ℕ → List ℕ → ℕ
unfolding crc_step
add_data crc input = add_rounds crc_step (length input / 16) crc input

-- The four bytes of output, and the state after it.
pub final_result : ℕ → List ℕ × ℕ
final_result crc = (store_be (bit_xor crc 0xFFFFFFFF), initial)
