-- ===== src/Checksum/Crc24.antt =====
-- checksum/crc24/crc24.cpp: the CRC-24 of OpenPGP. The state is the member `crc`, of 32 bits: the
-- shifts leave bits above the 24 that count, and the output passes over them.
pub mod Table
mod Tests
use php_botan.Base.{
  ℕ, ◌+◌, ◌/◌, ◌≡◌, ap, ◌∙◌, sym, List, [], ◌∷◌, ◌++◌, get_or, length, bit_and, bit_xor,
}
use php_botan.Base.Words.{shr32, shl32, get_byte}
use php_botan.Checksum.Unrolled.{add_each, add_rounds, add_each-append, add_rounds-add_each}
use Table.{table}

-- `clear()`
abbrev pub initial : ℕ
initial = 0xB704CE

-- `TABLE[((tmp >> 16) ^ b) & 0xFF] ^ (tmp << 8)`
pub crc_step : ℕ → ℕ → ℕ
crc_step tmp b = bit_xor (get_or table (bit_and (bit_xor (shr32 tmp 16) b) 0xFF) 0) (shl32 tmp 8)

pub add_data : ℕ → List ℕ → ℕ
unfolding crc_step
add_data crc input = add_rounds crc_step (length input / 16) crc input

-- The three bytes of output, and the state after it.
pub final_result : ℕ → List ℕ × ℕ
final_result crc = (get_byte 1 crc ∷ get_byte 2 crc ∷ get_byte 3 crc ∷ [], initial)

add_data-add_each : (crc : ℕ) (input : List ℕ) → add_data crc input ≡ add_each crc_step crc input
unfolding add_data
add_data-add_each crc input = add_rounds-add_each crc_step (length input / 16) crc input

-- Two calls, each of which goes through its bytes sixteen at a time and then one at a time, are one
-- call on the joined input.
pub add_data-append_crc24 :
    (crc : ℕ) (xs ys : List ℕ) → add_data (add_data crc xs) ys ≡ add_data crc (xs ++ ys)
add_data-append_crc24 crc xs ys =
    add_data-add_each (add_data crc xs) ys
    ∙ ap (λ (c : ℕ). add_each crc_step c ys) (add_data-add_each crc xs)
    ∙ sym (add_each-append crc_step crc xs ys)
    ∙ sym (add_data-add_each crc (xs ++ ys))
