-- ===== src/Math/Shift.antt =====
-- math/bigint/mp_shift.cpp: the shifts to the left.
pub mod Left
use php_botan.Base.{
  ℕ, zero, suc, ◌+◌, ◌-◌, ◌*◌, ◌/◌, ◌^◌, List, [], ◌∷◌, ◌++◌, take, drop, length, replicate, Bool,
  ◌==◌, if◌then◌else◌, bit_or,
}
use php_botan.Base.Words.{u32}

-- The loop over the words by `bit_shift`, with the carry.
unfoldable pub shl_loop : ℕ → ℕ → List ℕ → List ℕ
shl_loop bit_shift carry [] = []
shl_loop bit_shift carry (w ∷ ws) =
    bit_or (u32 (w * 2 ^ bit_shift)) carry ∷ shl_loop bit_shift (w / 2 ^ (32 - bit_shift)) ws

-- The loop over `x_size + 1` words from `word_shift` on, where bits are shifted.
unfoldable pub shl_bits : List ℕ → ℕ → ℕ → ℕ → List ℕ
unfolding shl_loop
shl_bits x x_size word_shift bit_shift =
    if bit_shift == 0
    then x
    else take word_shift x
      ++ (shl_loop bit_shift 0 (take (x_size + 1) (drop word_shift x))
          ++ drop (word_shift + x_size + 1) x)

-- `x_size` words of `x` are moved; those behind them stay.
unfoldable pub bigint_shl1 : List ℕ → ℕ → ℕ → ℕ → List ℕ
unfolding shl_bits
bigint_shl1 x x_size word_shift bit_shift =
    let moved =
      if word_shift == 0
      then x
      else replicate word_shift 0 ++ (take x_size x ++ drop (word_shift + x_size) x) in
    shl_bits moved x_size word_shift bit_shift

unfoldable pub bigint_shl2 : List ℕ → List ℕ → ℕ → ℕ → List ℕ
unfolding shl_bits
bigint_shl2 y x word_shift bit_shift =
    shl_bits (take word_shift y ++ (x ++ drop (word_shift + length x) y)) (length x) word_shift
      bit_shift
