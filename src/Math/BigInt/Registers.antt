-- ===== src/Math/BigInt/Registers.antt =====
-- math/bigint/big_ops3.cpp: what is written to the register of a result.
use php_botan.Base.{ℕ, suc, ◌+◌, ◌<◌, ◌≤◌, ◌≡◌, refl, ap, arith, length, replicate}
use mathlib.Core.Path.{subst}
use php_botan.Math.Value.{AreWords, value, raised, value-lt}
use php_botan.Math.Mp.{bigint_add3, bigint_sub3, bigint_cmp}
use php_botan.Math.Mp.Sub.{bigint_sub3_lem}
use php_botan.Math.Mp.Order.{Decides, bigint_cmp-Decides}
use php_botan.Math.Mp.Sizes.{length-bigint_sub3}
use php_botan.Math.Mp.Whole.{bigint_add3_lem, longest, raised-le}
use php_botan.Math.Multiply.{stored}
use php_botan.Math.Multiply.Exact.{stored_lem}
use php_botan.Math.BigInt.{BigInt, sig_words, significant, round_up, max_words, magnitude_cmp}
use php_botan.Math.BigInt.Words.{magnitude, significant_lem, sig_words-le}

pub magnitude_cmp-Decides :
    (x y : BigInt)
    → AreWords x.reg
    → AreWords y.reg
    → Decides (magnitude_cmp x y) (magnitude x) (magnitude y)
unfolding magnitude_cmp
magnitude_cmp-Decides x y hx hy =
    let (x_words, x_value, x_size) = significant_lem x hx in
    let (y_words, y_value, y_size) = significant_lem y hy in
    subst (λ v. Decides (bigint_cmp (significant x) (significant y)) v (magnitude y)) x_value
      (subst (λ v. Decides (bigint_cmp (significant x) (significant y)) (value (significant x)) v)
        y_value (bigint_cmp-Decides (significant x) (significant y) x_words y_words))

-- The register of a sum has room for it.
sum_room :
    (m n a b : ℕ)
    → a < raised m 1
    → b < raised n 1
    → a + b < raised (round_up (max_words m n + 1) 8) 1
unfolding round_up raised
sum_room m n a b h g =
    let k = max_words m n in
    let first : m ≤ k = ground arith in
    let second : n ≤ k = ground arith in
    let large : suc k ≤ round_up (k + 1) 8 = ground arith in
    omega (
      arith,
      h,
      g,
      raised-le m k first,
      raised-le n k second,
      raised-le (suc k) (round_up (k + 1) 8) large,
    )

module _ (x y : BigInt) (hx : AreWords x.reg) (hy : AreWords y.reg) where
  abbrev pub room : ℕ
  room = round_up (max_words (sig_words x) (sig_words y) + 1) 8

  pub room_lem :
      (sig_words x ≤ room) × (sig_words y ≤ room) × (longest (significant x) (significant y) ≤ room)
  unfolding round_up
  room_lem =
      let (x_words, x_value, x_size) = significant_lem x hx in
      let (y_words, y_value, y_size) = significant_lem y hy in
      (ground arith, ground arith, ground arith)

  pub room_more : sig_words x + 1 ≤ room
  unfolding round_up
  room_more = ground arith

  pub sum_lem :
      (value (bigint_add3 (replicate room 0) (significant x) (significant y))
        ≡ magnitude x + magnitude y)
      × AreWords (bigint_add3 (replicate room 0) (significant x) (significant y))
  sum_lem =
      let (x_words, x_value, x_size) = significant_lem x hx in
      let (y_words, y_value, y_size) = significant_lem y hy in
      let (x_room, y_room, both) = room_lem in
      let fits =
        sum_room (sig_words x) (sig_words y) (value (significant x)) (value (significant y))
          (omega (arith, value-lt (significant x) x_words, ap (λ k. raised k 1) x_size))
          (omega (arith, value-lt (significant y) y_words, ap (λ k. raised k 1) y_size)) in
      let (sum, words, size) =
        bigint_add3_lem (significant x) (significant y) room x_words y_words both fits in
      (omega (arith, sum, x_value, y_value), words)

-- The difference from the larger magnitude, in a register of enough words.
pub difference_lem :
    (x y : BigInt) (k : ℕ)
    → AreWords x.reg
    → AreWords y.reg
    → magnitude y ≤ magnitude x
    → sig_words x ≤ k
    → (value (stored (replicate k 0) (bigint_sub3 (significant x) (significant y))) + magnitude y
        ≡ magnitude x)
      × AreWords (stored (replicate k 0) (bigint_sub3 (significant x) (significant y)))
difference_lem x y k hx hy le room =
    let (x_words, x_value, x_size) = significant_lem x hx in
    let (y_words, y_value, y_size) = significant_lem y hy in
    let fewer = sig_words-le x y hx hy le in
    let shorter : length (significant y) ≤ length (significant x) =
      omega (arith, x_size, y_size, fewer) in
    let smaller : value (significant y) ≤ value (significant x) =
      omega (arith, x_value, y_value, le) in
    let (sum, words) =
      bigint_sub3_lem (significant x) (significant y) x_words y_words shorter smaller in
    let size = length-bigint_sub3 (significant x) (significant y) shorter in
    let (result, result_words, count) =
      stored_lem k (value (bigint_sub3 (significant x) (significant y)))
        (bigint_sub3 (significant x) (significant y)) refl words
        (omega (arith, size, x_size, room)) in
    (omega (arith, result, sum, x_value, y_value), result_words)
