-- ===== src/Utils/BitOps.antt =====
-- utils/bit_ops.h and utils/rotate.h, at the type u32bit.
pub mod Lowest
mod Tests
use php_botan.Base.{
  ℕ, zero, suc, ◌+◌, ◌-◌, ◌*◌, ◌/◌, ◌^◌, ◌≡◌, refl, arith, List, [], ◌∷◌, Bool, Bool-cases, inl,
  inr, true, false, not, ◌&&◌, bit_and, bit_or, get_or, ◌==◌, if◌then◌else◌,
}
use php_botan.Base.Words.{get_byte, sub32, shl32, shr32}

pub power_of_2 : ℕ → Bool
power_of_2 arg = not (arg == 0) && not (arg == 1) && bit_and arg (sub32 arg 1) == 0

-- The loop of `high_bit` from `i` down.
high_from : ℕ → ℕ → ℕ
high_from zero n = 0
high_from (suc i) n =
    let rest = high_from i n in if not (bit_and (n / 2 ^ i) 0x01 == 0) then suc i else rest

pub high_bit : ℕ → ℕ
unfolding high_from
high_bit n = high_from 32 n

-- The loop of `low_bit` over `k` bits from `i` on.
unfoldable low_from : ℕ → ℕ → ℕ → ℕ
low_from zero i n = 0
low_from (suc k) i n =
    let rest = low_from k (i + 1) n in if not (bit_and (n / 2 ^ i) 0x01 == 0) then i + 1 else rest

unfoldable pub low_bit : ℕ → ℕ
unfolding low_from
low_bit n = low_from 32 0 n

-- The loop of `significant_bytes` over `k` bytes from `j` on.
bytes_from : ℕ → ℕ → ℕ → ℕ
bytes_from zero j n = 0
bytes_from (suc k) j n =
    let rest = bytes_from k (j + 1) n in if not (get_byte j n == 0) then 4 - j else rest

pub significant_bytes : ℕ → ℕ
unfolding bytes_from
significant_bytes n = bytes_from 4 0 n

abbrev nibble_weights : List ℕ
nibble_weights = 0 ∷ 1 ∷ 1 ∷ 2 ∷ 1 ∷ 2 ∷ 2 ∷ 3 ∷ 1 ∷ 2 ∷ 2 ∷ 3 ∷ 2 ∷ 3 ∷ 3 ∷ 4 ∷ []

-- The loop of `hamming_weight` over `k` nibbles from `i` on.
weight_from : ℕ → ℕ → ℕ → ℕ
weight_from zero i n = 0
weight_from (suc k) i n =
    get_or nibble_weights (bit_and (n / 2 ^ (4 * i)) 0x0F) 0 + weight_from k (i + 1) n

pub hamming_weight : ℕ → ℕ
unfolding weight_from
hamming_weight n = weight_from 8 0 n

-- The loop of `ctz` over `k` bits from `i` on.
unfoldable ctz_from : ℕ → ℕ → ℕ → ℕ
ctz_from zero i n = 32
ctz_from (suc k) i n =
    let rest = ctz_from k (i + 1) n in if not (bit_and (n / 2 ^ i) 0x01 == 0) then i else rest

unfoldable pub ctz : ℕ → ℕ
unfolding ctz_from
ctz n = ctz_from 32 0 n

-- A rotation, by at least 1 and less than 32 bits.
pub rotate_left : ℕ → ℕ → ℕ
rotate_left input rot = bit_or (shl32 input rot) (shr32 input (32 - rot))

pub rotate_right : ℕ → ℕ → ℕ
rotate_right input rot = bit_or (shr32 input rot) (shl32 input (32 - rot))
