-- ===== src/Math/BigInt/Sums.antt =====
-- math/bigint/big_ops3.cpp: sums and differences of integers.
use php_botan.Base.{ℕ, ◌+◌, ◌≤◌, ◌≡◌, refl, sym, ap, ap₂, ◌∙◌, arith, false, List, replicate}
use mathlib.Core.Path.{subst}
use Prim.Native.Nat.{Ordering}
use php_botan.Math.Value.{AreWords, value, value-zeros, zeros-AreWords}
use php_botan.Math.Mp.{bigint_add3, bigint_sub3}
use php_botan.Math.Mp.Order.{Decides}
use php_botan.Math.Multiply.{stored}
use php_botan.Math.BigInt.{
  BigInt, Sign, positive, negative, set_sign, same_sign, significant, magnitude_cmp, add_opposite,
  add, sized,
}
use php_botan.Math.BigInt.Words.{magnitude, set_sign_lem}
use php_botan.Math.BigInt.Registers.{magnitude_cmp-Decides, room, room_lem, sum_lem, difference_lem}

-- Whole words, and no sign for zero.
abbrev pub IsBigInt : BigInt → Type 0
IsBigInt b = AreWords b.reg × (magnitude b ≡ 0 → b.signedness ≡ positive)

abbrev pub plus_part : Sign → ℕ → ℕ
plus_part positive v = v
plus_part negative v = 0

abbrev pub minus_part : Sign → ℕ → ℕ
minus_part positive v = 0
minus_part negative v = v

-- The integer is `plus` less `minus`.
abbrev pub Represents : BigInt → ℕ → ℕ → Type 0
Represents b plus minus =
    plus_part b.signedness (magnitude b) + minus ≡ minus_part b.signedness (magnitude b) + plus

abbrev pub plus : BigInt → ℕ
plus b = plus_part b.signedness (magnitude b)

abbrev pub minus : BigInt → ℕ
minus b = minus_part b.signedness (magnitude b)

abbrev pub made : Sign → List ℕ → BigInt
made s x = record { reg = x; signedness = s }

-- A result with its sign set.
pub signed_result :
    (s : Sign) (z : BigInt) (a b : ℕ)
    → AreWords z.reg
    → 1 ≤ magnitude z
    → Represents (made s z.reg) a b
    → IsBigInt (set_sign s z) × Represents (set_sign s z) a b
signed_result s z a b h some e =
    let (same, (none, sign)) = set_sign_lem s z in
    (
      (subst AreWords (sym same) h, λ zero_value. none (sym (ap value same) ∙ zero_value)),
      subst (λ w. Represents w a b) (ap₂ (λ t x. made t x) (sym (sign some)) (sym same)) e,
    )

pub zero_result :
    (z : BigInt) (a b : ℕ)
    → AreWords z.reg
    → magnitude z ≡ 0
    → a ≡ b
    → IsBigInt (set_sign positive z) × Represents (set_sign positive z) a b
zero_result z a b h none e =
    let (same, (sign, some)) = set_sign_lem positive z in
    (
      (subst AreWords (sym same) h, λ e. sign none),
      subst (λ w. Represents w a b) (ap₂ (λ t x. made t x) (sym (sign none)) (sym same))
          (omega (arith, none, e)),
    )

-- What a sum and a difference of two integers are.
module _ (s t : Sign) (x y : List ℕ) (hx : IsBigInt (made s x)) (hy : IsBigInt (made t y)) where
  abbrev a : BigInt
  a = made s x

  abbrev b : BigInt
  b = made t y

  abbrev pub zeros : List ℕ
  zeros = replicate (room a b hx.0 hy.0) 0

  added : List ℕ
  added = bigint_add3 zeros (significant a) (significant b)

  -- The larger magnitude less the smaller one.
  pub from_first :
      value y ≤ value x
      → (value (stored zeros (bigint_sub3 (significant a) (significant b))) + value y ≡ value x)
        × AreWords (stored zeros (bigint_sub3 (significant a) (significant b)))
  from_first le = difference_lem a b (room a b hx.0 hy.0) hx.0 hy.0 le (room_lem a b hx.0 hy.0).0

  pub from_second :
      value x ≤ value y
      → (value (stored zeros (bigint_sub3 (significant b) (significant a))) + value x ≡ value y)
        × AreWords (stored zeros (bigint_sub3 (significant b) (significant a)))
  from_second le = difference_lem b a (room a b hx.0 hy.0) hy.0 hx.0 le (room_lem a b hx.0 hy.0).1

  pub zeros_lem : (value zeros ≡ 0) × AreWords zeros
  zeros_lem = (value-zeros (room a b hx.0 hy.0), zeros-AreWords (room a b hx.0 hy.0))

opposite_cases :
    (s t : Sign) (x y : List ℕ) (hx : IsBigInt (made s x)) (hy : IsBigInt (made t y)) (o : Ordering)
    → same_sign s t ≡ false
    → Decides o (value x) (value y)
    → IsBigInt (add_opposite o (made s (zeros s t x y hx hy)) (made s x) (made t y))
      × Represents
          (add_opposite o (made s (zeros s t x y hx hy)) (made s x) (made t y))
          (plus (made s x) + plus (made t y))
          (minus (made s x) + minus (made t y))
unfolding add_opposite same_sign
opposite_cases positive positive x y hx hy o e d = absurd (grind (arith, e))
opposite_cases negative negative x y hx hy o e d = absurd (grind (arith, e))
opposite_cases positive negative x y hx hy Ordering.lt e d =
    let (sum, words) = from_second positive negative x y hx hy (omega arith) in
    let z =
      stored (zeros positive negative x y hx hy)
        (bigint_sub3 (significant (made negative y)) (significant (made positive x))) in
    signed_result negative (made positive z) _ _ words (omega (arith, sum)) (omega (arith, sum))
opposite_cases positive negative x y hx hy Ordering.eq e d =
    let (none, words) = zeros_lem positive negative x y hx hy in
    zero_result (made positive (zeros positive negative x y hx hy)) _ _ words none (omega arith)
opposite_cases positive negative x y hx hy Ordering.gt e d =
    let (sum, words) = from_first positive negative x y hx hy (omega arith) in
    ((words, λ z. refl), omega (arith, sum))
opposite_cases negative positive x y hx hy Ordering.lt e d =
    let (sum, words) = from_second negative positive x y hx hy (omega arith) in
    let z =
      stored (zeros negative positive x y hx hy)
        (bigint_sub3 (significant (made positive y)) (significant (made negative x))) in
    signed_result positive (made negative z) _ _ words (omega (arith, sum)) (omega (arith, sum))
opposite_cases negative positive x y hx hy Ordering.eq e d =
    let (none, words) = zeros_lem negative positive x y hx hy in
    zero_result (made negative (zeros negative positive x y hx hy)) _ _ words none (omega arith)
opposite_cases negative positive x y hx hy Ordering.gt e d =
    let (sum, words) = from_first negative positive x y hx hy (omega arith) in
    ((words, λ z. absurd (omega (arith, sum, z))), omega (arith, sum))

add_cases :
    (s t : Sign) (x y : List ℕ)
    → IsBigInt (made s x)
    → IsBigInt (made t y)
    → IsBigInt (add (made s x) (made t y))
      × Represents
          (add (made s x) (made t y))
          (plus (made s x) + plus (made t y))
          (minus (made s x) + minus (made t y))
unfolding add sized same_sign
add_cases positive positive x y (hx, gx) (hy, gy) =
    let (sum, words) = sum_lem (made positive x) (made positive y) hx hy in
    ((words, λ e. refl), omega (arith, sum))
add_cases negative negative x y (hx, gx) (hy, gy) =
    let (sum, words) = sum_lem (made negative x) (made negative y) hx hy in
    ((words, λ e. gx (omega (arith, sum, e))), omega (arith, sum))
add_cases positive negative x y hx hy =
    let a = made positive x in
    let b = made negative y in
    opposite_cases positive negative x y hx hy (magnitude_cmp a b) refl
      (magnitude_cmp-Decides a b hx.0 hy.0)
add_cases negative positive x y hx hy =
    let a = made negative x in
    let b = made positive y in
    opposite_cases negative positive x y hx hy (magnitude_cmp a b) refl
      (magnitude_cmp-Decides a b hx.0 hy.0)

-- The result of operator+ on two integers that hold words and have no sign for zero is their sum as
-- integers and is such an integer, whatever the signs and sizes.
pub add-Represents :
    (x y : BigInt)
    → IsBigInt x
    → IsBigInt y
    → IsBigInt (add x y) × Represents (add x y) (plus x + plus y) (minus x + minus y)
add-Represents x y hx hy = add_cases x.signedness y.signedness x.reg y.reg hx hy
