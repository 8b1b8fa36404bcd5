-- ===== src/Math/BigInt/Differences.antt =====
-- math/bigint/big_ops3.cpp: differences of integers.
use php_botan.Base.{ℕ, ◌+◌, ◌*◌, ◌≡◌, ◌≢◌, ◌⊎◌, refl, sym, arith, inl, inr, List}
use Prim.Native.Nat.{Ordering}
use php_botan.Math.Value.{AreWords, value, raised}
use php_botan.Math.Mp.Order.{Decides}
use php_botan.Math.Shift.{bigint_shl2}
use php_botan.Math.Shift.Left.{bigint_shl2_lem}
use php_botan.Math.BigInt.{
  BigInt, Sign, positive, negative, same_sign, reverse_sign, significant, magnitude_cmp, subtract,
  subtract_by, sized,
}
use php_botan.Math.BigInt.Words.{magnitude, significant_lem}
use php_botan.Math.BigInt.Registers.{magnitude_cmp-Decides, room, room_more, sum_lem}
use php_botan.Math.BigInt.Sums.{
  IsBigInt, Represents, plus, minus, made, signed_result, zeros, from_first, from_second, zeros_lem,
}

-- Where the magnitudes are equal and the signs differ, the first is positive.
abbrev pub Regular : Sign → Sign → ℕ → ℕ → Type 0
Regular s t a b = (s ≡ positive) ⊎ ((t ≡ negative) ⊎ (a ≢ b))

positive-ne-negative : positive ≢ negative
positive-ne-negative e = cc

-- The double of the first.
pub doubled :
    (s t : Sign) (x y : List ℕ) (hx : IsBigInt (made s x)) (hy : IsBigInt (made t y))
    → (value (bigint_shl2 (zeros s t x y hx hy) (significant (made s x)) 0 1) ≡ 2 * value x)
      × AreWords (bigint_shl2 (zeros s t x y hx hy) (significant (made s x)) 0 1)
unfolding raised
doubled s t x y hx hy =
    let a = made s x in
    let (words, same, size) = significant_lem a hx.0 in
    let more = room_more a (made t y) hx.0 hy.0 in
    let (double, result, count) =
      bigint_shl2_lem (significant a) 0 1 (room a (made t y) hx.0 hy.0) words (omega arith)
        (omega (arith, size, more)) in
    (omega (arith, double, same), result)

pub subtract_cases :
    (s t : Sign) (x y : List ℕ) (hx : IsBigInt (made s x)) (hy : IsBigInt (made t y)) (o : Ordering)
    → Decides o (value x) (value y)
    → Regular s t (value x) (value y)
    → IsBigInt (subtract_by o (zeros s t x y hx hy) (made s x) (made t y))
      × Represents
          (subtract_by o (zeros s t x y hx hy) (made s x) (made t y))
          (plus (made s x) + minus (made t y))
          (minus (made s x) + plus (made t y))
unfolding subtract_by same_sign reverse_sign
subtract_cases positive positive x y hx hy Ordering.lt d r =
    let (sum, words) = from_second positive positive x y hx hy (omega arith) in
    signed_result negative (made positive _) _ _ words (omega (arith, sum)) (omega (arith, sum))
subtract_cases positive positive x y hx hy Ordering.eq d r =
    let (none, words) = zeros_lem positive positive x y hx hy in
    ((words, λ e. refl), omega (arith, none))
subtract_cases positive positive x y hx hy Ordering.gt d r =
    let (sum, words) = from_first positive positive x y hx hy (omega arith) in
    signed_result positive (made positive _) _ _ words (omega (arith, sum)) (omega (arith, sum))
subtract_cases negative negative x y hx hy Ordering.lt d r =
    let (sum, words) = from_second negative negative x y hx hy (omega arith) in
    signed_result positive (made positive _) _ _ words (omega (arith, sum)) (omega (arith, sum))
subtract_cases negative negative x y hx hy Ordering.eq d r =
    let (none, words) = zeros_lem negative negative x y hx hy in
    ((words, λ e. refl), omega (arith, none))
subtract_cases negative negative x y hx hy Ordering.gt d r =
    let (sum, words) = from_first negative negative x y hx hy (omega arith) in
    signed_result negative (made positive _) _ _ words (omega (arith, sum)) (omega (arith, sum))
subtract_cases positive negative x y hx hy Ordering.lt d r =
    let (sum, words) = sum_lem (made positive x) (made negative y) hx.0 hy.0 in
    signed_result positive (made positive _) _ _ words (omega (arith, sum)) (omega (arith, sum))
subtract_cases positive negative x y hx hy Ordering.eq d r =
    let (double, words) = doubled positive negative x y hx hy in
    ((words, λ e. refl), omega (arith, double))
subtract_cases positive negative x y hx hy Ordering.gt d r =
    let (sum, words) = sum_lem (made positive x) (made negative y) hx.0 hy.0 in
    signed_result positive (made positive _) _ _ words (omega (arith, sum)) (omega (arith, sum))
subtract_cases negative positive x y hx hy Ordering.lt d r =
    let (sum, words) = sum_lem (made negative x) (made positive y) hx.0 hy.0 in
    signed_result negative (made positive _) _ _ words (omega (arith, sum)) (omega (arith, sum))
subtract_cases negative positive x y hx hy Ordering.eq d (inl e) =
    absurd (positive-ne-negative (sym e))
subtract_cases negative positive x y hx hy Ordering.eq d (inr (inl e)) =
    absurd (positive-ne-negative e)
subtract_cases negative positive x y hx hy Ordering.eq d (inr (inr e)) = absurd (e d)
subtract_cases negative positive x y hx hy Ordering.gt d r =
    let (sum, words) = sum_lem (made negative x) (made positive y) hx.0 hy.0 in
    signed_result negative (made positive _) _ _ words (omega (arith, sum)) (omega (arith, sum))

-- The result of operator- on two integers that hold words and have no sign for zero is their
-- difference as integers and is such an integer, but where the first is negative and the second its
-- opposite.
pub subtract-Represents :
    (x y : BigInt)
    → IsBigInt x
    → IsBigInt y
    → Regular x.signedness y.signedness (magnitude x) (magnitude y)
    → IsBigInt (subtract x y) × Represents (subtract x y) (plus x + minus y) (minus x + plus y)
unfolding subtract sized
subtract-Represents x y hx hy r =
    subtract_cases x.signedness y.signedness x.reg y.reg hx hy (magnitude_cmp x y)
      (magnitude_cmp-Decides x y hx.0 hy.0) r

opposite_cases :
    (x y : List ℕ) (hx : IsBigInt (made negative x)) (hy : IsBigInt (made positive y))
    (o : Ordering)
    → Decides o (value x) (value y)
    → value x ≡ value y
    → Represents
        (subtract_by o (zeros negative positive x y hx hy) (made negative x) (made positive y))
        (2 * value x)
        0
unfolding subtract_by same_sign
opposite_cases x y hx hy Ordering.lt d e = absurd (omega arith)
opposite_cases x y hx hy Ordering.gt d e = absurd (omega arith)
opposite_cases x y hx hy Ordering.eq d e =
    let (double, words) = doubled negative positive x y hx hy in omega (arith, double)

-- For a negative integer and its opposite, which hold words, operator- returns the double of the
-- magnitude as a positive integer.
pub subtract_opposite :
    (x y : List ℕ)
    → IsBigInt (made negative x)
    → IsBigInt (made positive y)
    → value x ≡ value y
    → Represents (subtract (made negative x) (made positive y)) (2 * value x) 0
unfolding subtract sized
subtract_opposite x y hx hy e =
    opposite_cases x y hx hy (magnitude_cmp (made negative x) (made positive y))
      (magnitude_cmp-Decides (made negative x) (made positive y) hx.0 hy.0) e
