-- ===== src/Math/BigInt/Reachable.antt =====
-- math/bigint/: the integers that the modelled operations can make.
use php_botan.Base.{
  ℕ, zero, suc, ◌*◌, ◌/◌, ◌%◌, ◌^◌, ◌<◌, ◌≤◌, ◌≡◌, refl, sym, ◌∙◌, arith, ◌==◌, Bool-cases, inl,
  inr, List,
}
use Prim.Native.Nat.{Ordering}
use native.Mathlib.Nat.{mul-le-mul, one-le-pow}
use php_botan.Math.Value.{AreWords, value, raised, zeros-AreWords}
use php_botan.Math.Mp.Order.{Decides}
use php_botan.Math.BigInt.{
  BigInt, Sign, positive, negative, from_u64, add, subtract, subtract_by, multiply, shift_left,
  flip_sign, reverse_sign, copy, sized, same_sign, magnitude_cmp,
}
use php_botan.Math.BigInt.Words.{magnitude}
use php_botan.Math.BigInt.Registers.{magnitude_cmp-Decides}
use php_botan.Math.BigInt.Copies.{set_sign-IsBigInt, copy_lem}
use php_botan.Math.BigInt.Sums.{IsBigInt, made, zeros, add-Represents}
use php_botan.Math.BigInt.Differences.{doubled, subtract_cases}
use php_botan.Math.BigInt.Products.{multiply-Represents, shift_left_lem}

-- What is made from numbers of 64 bits by the operators.
pub data Reachable : BigInt → Type 0 where
  number : (n : ℕ) → n < 2 ^ 64 → Reachable (from_u64 n)
  sum : (x y : BigInt) → Reachable x → Reachable y → Reachable (add x y)
  difference : (x y : BigInt) → Reachable x → Reachable y → Reachable (subtract x y)
  product : (x y : BigInt) → Reachable x → Reachable y → Reachable (multiply x y)
  shifted : (x : BigInt) (shift : ℕ) → Reachable x → Reachable (shift_left x shift)
  flipped : (x : BigInt) → Reachable x → Reachable (flip_sign x)
  copied : (x : BigInt) → Reachable x → Reachable (copy x)

from_u64-IsBigInt : (n : ℕ) → IsBigInt (from_u64 n)
unfolding from_u64
from_u64-IsBigInt n = elim (Bool-cases (n == 0)) [
  | inl none ↦ rw none (tt, λ e. refl)
  | inr some ↦ rw some ((omega arith, (omega arith, zeros-AreWords 6)), λ e. refl)
]

copy-IsBigInt : (b : BigInt) → IsBigInt b → IsBigInt (copy b)
copy-IsBigInt b h =
    let (same, words, sign) = copy_lem b h in (words, λ e. sign ∙ h.1 (sym same ∙ e))

flip_sign-IsBigInt : (b : BigInt) → AreWords b.reg → IsBigInt (flip_sign b)
unfolding flip_sign
flip_sign-IsBigInt b h = set_sign-IsBigInt (reverse_sign b.signedness) b h

subtract_any :
    (s t : Sign) (x y : List ℕ) (hx : IsBigInt (made s x)) (hy : IsBigInt (made t y)) (o : Ordering)
    → Decides o (value x) (value y)
    → IsBigInt (subtract_by o (zeros s t x y hx hy) (made s x) (made t y))
unfolding subtract_by same_sign
subtract_any positive t x y hx hy o d = (subtract_cases positive t x y hx hy o d (inl refl)).0
subtract_any negative negative x y hx hy o d =
    (subtract_cases negative negative x y hx hy o d (inr (inl refl))).0
subtract_any negative positive x y hx hy Ordering.lt d =
    (subtract_cases negative positive x y hx hy Ordering.lt d (inr (inr (λ e. omega arith)))).0
subtract_any negative positive x y hx hy Ordering.eq d =
    let (double, words) = doubled negative positive x y hx hy in (words, λ e. refl)
subtract_any negative positive x y hx hy Ordering.gt d =
    (subtract_cases negative positive x y hx hy Ordering.gt d (inr (inr (λ e. omega arith)))).0

subtract-IsBigInt : (x y : BigInt) → IsBigInt x → IsBigInt y → IsBigInt (subtract x y)
unfolding subtract sized
subtract-IsBigInt x y hx hy =
    subtract_any x.signedness y.signedness x.reg y.reg hx hy (magnitude_cmp x y)
      (magnitude_cmp-Decides x y hx.0 hy.0)

raised_above : (n v : ℕ) → v ≤ raised n v
unfolding raised
raised_above zero v = omega arith
raised_above (suc n) v = omega (arith, raised_above n v)

nothing_shifted : (n b v : ℕ) → raised n (2 ^ b * v) ≡ 0 → v ≡ 0
nothing_shifted n b v e =
    let some : 1 ≤ 2 ^ b = one-le-pow b 2 (omega arith) in
    let more : 1 * v ≤ 2 ^ b * v = mul-le-mul some (let le : v ≤ v = omega arith in le) in
    omega (arith, e, more, raised_above n (2 ^ b * v))

shift_left-IsBigInt : (x : BigInt) (shift : ℕ) → IsBigInt x → IsBigInt (shift_left x shift)
shift_left-IsBigInt x shift h =
    let (result, words, sign) = shift_left_lem x shift h in
    (
      words,
      λ e. sign ∙ h.1 (nothing_shifted (shift / 32) (shift % 32) (magnitude x) (sym result ∙ e)),
    )

-- Whatever integer the modelled operators make from numbers of 64 bits, its register holds words,
-- and where it is zero it has no sign.
pub Reachable-IsBigInt : (b : BigInt) → Reachable b → IsBigInt b
Reachable-IsBigInt b (number n h) = from_u64-IsBigInt n
Reachable-IsBigInt b (sum x y h g) =
    (add-Represents x y (Reachable-IsBigInt x h) (Reachable-IsBigInt y g)).0
Reachable-IsBigInt b (difference x y h g) =
    subtract-IsBigInt x y (Reachable-IsBigInt x h) (Reachable-IsBigInt y g)
Reachable-IsBigInt b (product x y h g) =
    (multiply-Represents x y (Reachable-IsBigInt x h) (Reachable-IsBigInt y g)).0
Reachable-IsBigInt b (shifted x shift h) = shift_left-IsBigInt x shift (Reachable-IsBigInt x h)
Reachable-IsBigInt b (flipped x h) = flip_sign-IsBigInt x (Reachable-IsBigInt x h).0
Reachable-IsBigInt b (copied x h) = copy-IsBigInt x (Reachable-IsBigInt x h)
