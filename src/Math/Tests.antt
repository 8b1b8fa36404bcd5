-- ===== src/Math/Tests.antt =====
-- Products, sums and differences of concrete numbers.
use php_botan.Base.{
  ℕ, zero, suc, ◌+◌, ◌*◌, ◌/◌, ◌%◌, ◌^◌, ◌≡◌, ◌≢◌, refl, arith, List, [], ◌∷◌, length, replicate,
  inr,
}
use php_botan.Math.Value.{AreWords, value, raised}
use php_botan.Math.Mp.{bigint_cmp}
use php_botan.Math.Mp.Order.{Decides, bigint_cmp-Decides}
use php_botan.Math.Comba.{bigint_comba_mul16, bigint_comba_sqr16}
use php_botan.Math.Comba.Exact.{IsProduct, bigint_comba_mul16_lem, bigint_comba_sqr16_lem}
use php_botan.Math.Karatsuba.{karatsuba_mul}
use php_botan.Math.Karatsuba.Exact.{karatsuba_mul_lem}
use php_botan.Math.Multiply.{bigint_mul, bigint_sqr, karatsuba_mul_size}
use php_botan.Math.Multiply.Choice.{Picks, karatsuba_mul_size-Picks}
use php_botan.Math.Multiply.Exact.{bigint_mul_lem}
use php_botan.Math.Multiply.Square.{bigint_sqr_lem}
use php_botan.Math.BigInt.{from_u64, positive, negative, add, subtract, multiply, shift_left}
use php_botan.Math.BigInt.Words.{magnitude}
use php_botan.Math.BigInt.Sums.{IsBigInt, Represents, plus, minus, made, add-Represents}
use php_botan.Math.BigInt.Differences.{subtract-Represents, subtract_opposite}
use php_botan.Math.BigInt.Reachable.{Reachable-IsBigInt, number, product, difference, shifted}
use php_botan.Math.BigInt.Products.{multiply-Represents, shift_left_lem}

-- The largest word, many times.
abbrev largest : ℕ → List ℕ
largest n = replicate n 0xFFFFFFFF

largest-AreWords : (n : ℕ) → AreWords (largest n)
largest-AreWords zero = tt
largest-AreWords (suc n) = (omega arith, largest-AreWords n)

bigint_comba_mul16_lem_example :
    IsProduct (largest 16) (largest 16) (bigint_comba_mul16 (largest 16) (largest 16))
bigint_comba_mul16_lem_example =
    bigint_comba_mul16_lem (largest 16) (largest 16) (largest-AreWords 16) (largest-AreWords 16)
      refl refl

bigint_comba_sqr16_lem_example :
    IsProduct (largest 16) (largest 16) (bigint_comba_sqr16 (largest 16))
bigint_comba_sqr16_lem_example = bigint_comba_sqr16_lem (largest 16) (largest-AreWords 16) refl

-- 64 words are halved twice.
karatsuba_mul_lem_example :
    IsProduct (largest 64) (largest 64) (karatsuba_mul 65 (largest 64) (largest 64))
karatsuba_mul_lem_example =
    karatsuba_mul_lem 65 (largest 64) (largest 64) (largest-AreWords 64) (largest-AreWords 64) refl
      (omega arith)

-- 38 words that matter of 40, and 33 of 40.
karatsuba_mul_size-Picks_example : Picks 80 40 38 40 33 40 (karatsuba_mul_size 80 40 38 40 33)
karatsuba_mul_size-Picks_example =
    karatsuba_mul_size-Picks 80 40 38 40 33 40 (omega arith)
      (refl, (omega arith, omega arith), (omega arith, omega arith))

bigint_mul_lem_example :
    (value (bigint_mul (replicate 80 0) (largest 40) 40 (largest 40) 40)
      ≡ value (largest 40) * value (largest 40))
    × AreWords (bigint_mul (replicate 80 0) (largest 40) 40 (largest 40) 40)
    × (length (bigint_mul (replicate 80 0) (largest 40) 40 (largest 40) 40) ≡ 80)
bigint_mul_lem_example =
    bigint_mul_lem (largest 40) (largest 40) 40 40 80 (largest-AreWords 40) (largest-AreWords 40)
      (omega arith, refl) (omega arith, refl) (omega arith)

bigint_sqr_lem_example :
    (value (bigint_sqr (replicate 80 0) (largest 40) 40) ≡ value (largest 40) * value (largest 40))
    × AreWords (bigint_sqr (replicate 80 0) (largest 40) 40)
    × (length (bigint_sqr (replicate 80 0) (largest 40) 40) ≡ 80)
bigint_sqr_lem_example =
    bigint_sqr_lem (largest 40) 40 80 (largest-AreWords 40) (omega arith, refl) (omega arith)

bigint_cmp-Decides_example :
    Decides (bigint_cmp (7 ∷ []) (5 ∷ 0 ∷ 1 ∷ [])) (value (7 ∷ [])) (value (5 ∷ 0 ∷ 1 ∷ []))
bigint_cmp-Decides_example =
    bigint_cmp-Decides (7 ∷ []) (5 ∷ 0 ∷ 1 ∷ []) (omega arith, tt)
      (omega arith, (omega arith, (omega arith, tt)))

-- 5 + 2 ^ 64, and 7 with a zero above it.
abbrev large : List ℕ
large = 5 ∷ 0 ∷ 1 ∷ []

abbrev small : List ℕ
small = 7 ∷ 0 ∷ []

large-IsBigInt : IsBigInt (made negative large)
unfolding value
large-IsBigInt = ((omega arith, (omega arith, (omega arith, tt))), λ e. absurd (omega arith))

large_positive-IsBigInt : IsBigInt (made positive large)
large_positive-IsBigInt = (large-IsBigInt.0, λ e. refl)

small-IsBigInt : IsBigInt (made positive small)
small-IsBigInt = ((omega arith, (omega arith, tt)), λ e. refl)

add-Represents_example :
    IsBigInt (add (made negative large) (made positive small))
    × Represents
        (add (made negative large) (made positive small))
        (plus (made negative large) + plus (made positive small))
        (minus (made negative large) + minus (made positive small))
add-Represents_example =
    add-Represents (made negative large) (made positive small) large-IsBigInt small-IsBigInt

large-ne-small : value large ≢ value small
unfolding value
large-ne-small e = omega arith

subtract-Represents_example :
    IsBigInt (subtract (made negative large) (made positive small))
    × Represents
        (subtract (made negative large) (made positive small))
        (plus (made negative large) + minus (made positive small))
        (minus (made negative large) + plus (made positive small))
subtract-Represents_example =
    subtract-Represents (made negative large) (made positive small) large-IsBigInt small-IsBigInt
      (inr (inr large-ne-small))

subtract_opposite_example :
    Represents (subtract (made negative large) (made positive large)) (2 * value large) 0
subtract_opposite_example =
    subtract_opposite large large large-IsBigInt large_positive-IsBigInt refl

multiply-Represents_example :
    IsBigInt (multiply (made negative large) (made positive small))
    × Represents
        (multiply (made negative large) (made positive small))
        (plus (made negative large) * plus (made positive small)
          + minus (made negative large) * minus (made positive small))
        (plus (made negative large) * minus (made positive small)
          + minus (made negative large) * plus (made positive small))
multiply-Represents_example =
    multiply-Represents (made negative large) (made positive small) large-IsBigInt small-IsBigInt

shift_left_lem_example :
    (magnitude (shift_left (made negative large) 33)
      ≡ raised (33 / 32) (2 ^ (33 % 32) * magnitude (made negative large)))
    × AreWords (shift_left (made negative large) 33).reg
    × ((shift_left (made negative large) 33).signedness ≡ negative)
shift_left_lem_example = shift_left_lem (made negative large) 33 large-IsBigInt

-- 3 * 5 - 16, shifted.
Reachable-IsBigInt_example :
    IsBigInt (shift_left (subtract (multiply (from_u64 3) (from_u64 5)) (from_u64 16)) 40)
Reachable-IsBigInt_example =
    Reachable-IsBigInt (shift_left (subtract (multiply (from_u64 3) (from_u64 5)) (from_u64 16)) 40)
      (shifted _ 40 (
        difference _ _ (product _ _ (number 3 (omega arith)) (number 5 (omega arith)))
          (number 16 (omega arith))))
