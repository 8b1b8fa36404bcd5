-- ===== src/Math/BigInt/Products.antt =====
-- math/bigint/big_ops3.cpp: products of integers and shifts to the left.
use php_botan.Base.{
  ℕ, ◌+◌, ◌*◌, ◌/◌, ◌%◌, ◌^◌, ◌≤◌, ◌≡◌, refl, sym, ap, ap₂, ◌∙◌, arith, Bool, true, false, not,
  ◌&&◌, ◌==◌, ==_iff, if◌then◌else◌, Bool-cases, inl, inr, List, replicate, length,
}
use mathlib.Core.Path.{subst}
use php_botan.Math.Value.{AreWords, value, raised, value-zeros, zeros-AreWords}
use php_botan.Math.Mp.{bigint_linmul3}
use php_botan.Math.Mp.Mul.{bigint_linmul3_lem}
use php_botan.Math.Mp.Sizes.{length-bigint_linmul3}
use php_botan.Math.Comba.Columns.{word_at}
use php_botan.Math.Comba.Value.{word_at-IsU32}
use php_botan.Math.Multiply.{stored}
use php_botan.Math.Shift.Left.{bigint_shl2_lem}
use php_botan.Math.Multiply.Sizes.{by_if}
use php_botan.Math.Multiply.Exact.{single, stored_lem, bigint_mul_lem}
use php_botan.Math.BigInt.{
  BigInt, Sign, positive, negative, same_sign, reverse_sign, flip_sign, set_sign, significant,
  sig_words, multiply, product_words, sized, round_up, shift_left,
}
use php_botan.Math.BigInt.Words.{magnitude, significant_lem, sig_words-Matter, set_sign_lem}
use php_botan.Math.BigInt.Copies.{no_words, copy_lem}
use php_botan.Math.BigInt.Sums.{IsBigInt, Represents, plus, minus, made, signed_result}

zero_product :
    (x y : BigInt)
    → (not (sig_words x == 0) && not (sig_words y == 0)) ≡ false
    → magnitude x * magnitude y ≡ 0
zero_product x y none = elim (Bool-cases (sig_words x == 0)) [
  | inl none_here ↦ rw (no_words x ((==_iff (sig_words x) 0).0 none_here)) (omega arith)
  | inr some_here ↦ let e : sig_words y ≡ 0 = ground arith in rw (no_words y e) (omega arith)
]

register_size : (m n : ℕ) → m + n ≤ round_up (m + n) 8
unfolding round_up
register_size m n = ground arith

module _ (x y : BigInt) (hx : AreWords x.reg) (hy : AreWords y.reg) where
  abbrev size : ℕ
  size = round_up (length x.reg + length y.reg) 8

  -- The product of a number of one word.
  by_word :
      (a b : BigInt)
      → AreWords a.reg
      → AreWords b.reg
      → sig_words a ≡ 1
      → length b.reg + 1 ≤ size
      → (value (stored (replicate size 0) (bigint_linmul3 (significant b) (word_at a.reg 0)))
          ≡ magnitude b * magnitude a)
        × AreWords (stored (replicate size 0) (bigint_linmul3 (significant b) (word_at a.reg 0)))
  by_word a b ha hb one room =
      let (words, same, count) = significant_lem b hb in
      let word = word_at-IsU32 a.reg 0 ha in
      let (product, result) = bigint_linmul3_lem (significant b) (word_at a.reg 0) words word in
      let exact =
        product ∙ ap₂ (λ p q. p * q) same (single a.reg (sig_words a) (sig_words-Matter a) one) in
      let (stored_value, stored_words, _) =
        stored_lem size (magnitude b * magnitude a)
          (bigint_linmul3 (significant b) (word_at a.reg 0)) exact result
          (omega (
            arith,
            length-bigint_linmul3 (significant b) (word_at a.reg 0),
            count,
            (sig_words-Matter b).0,
            room,
          )) in
      (stored_value, stored_words)

  product_words_lem :
      (value (product_words x y) ≡ magnitude x * magnitude y) × AreWords (product_words x y)
  unfolding product_words sized
  product_words_lem =
      let P = λ (r : List ℕ). (value r ≡ magnitude x * magnitude y) × AreWords r in
      let room = register_size (length x.reg) (length y.reg) in
      let (x_le, x_same) = sig_words-Matter x in
      let (y_le, y_same) = sig_words-Matter y in
      by_if P (sig_words x == 1 && not (sig_words y == 0)) _ _
        (λ one.
          let e : sig_words x ≡ 1 = ground arith in
          let (product, words) = by_word x y hx hy e (omega (arith, room, x_le, e)) in
          (product ∙ omega arith, words))
        (λ more.
          by_if P (sig_words y == 1 && not (sig_words x == 0)) _ _
            (λ one.
              let e : sig_words y ≡ 1 = ground arith in
              by_word y x hy hx e (omega (arith, room, y_le, e)))
            (λ no_one.
              by_if P (not (sig_words x == 0) && not (sig_words y == 0)) _ _
                (λ some.
                  let (product, words, count) =
                    bigint_mul_lem x.reg y.reg (sig_words x) (sig_words y) size hx hy (x_le, x_same)
                      (y_le, y_same) room in
                  (product, words))
                (λ none. (value-zeros size ∙ sym (zero_product x y none), zeros-AreWords size))))

-- A positive result, and one whose sign is turned.
kept :
    (w : List ℕ) (a b : ℕ)
    → AreWords w
    → value w + b ≡ a
    → IsBigInt (made positive w) × Represents (made positive w) a b
kept w a b h e = ((h, λ z. refl), omega (arith, e))

flipped :
    (w : List ℕ) (a b : ℕ)
    → AreWords w
    → value w + a ≡ b
    → IsBigInt (flip_sign (made positive w)) × Represents (flip_sign (made positive w)) a b
unfolding flip_sign reverse_sign
flipped w a b h e = elim (Bool-cases (value w == 0)) [
  | inl none ↦ nothing ((==_iff (value w) 0).0 none)
  | inr some ↦ signed_result negative (made positive w) a b h (ground arith) (omega (arith, e))
]
  where
    nothing :
        value w ≡ 0
        → IsBigInt (set_sign negative (made positive w))
          × Represents (set_sign negative (made positive w)) a b
    nothing none =
        let (same, (sign, some)) = set_sign_lem negative (made positive w) in
        (
          (subst AreWords (sym same) h, λ z. sign none),
          subst (λ r. Represents r a b) (ap₂ (λ t x. made t x) (sym (sign none)) (sym same))
              (omega (arith, none, e)),
        )

-- The sign of a product.
multiply_signs :
    (same some : Bool) (w : List ℕ) (v : ℕ)
    → AreWords w
    → value w ≡ v
    → (some ≡ false → v ≡ 0)
    → (same ≡ true
        → IsBigInt (if some && not same then flip_sign (made positive w) else made positive w)
          × Represents
              (if some && not same then flip_sign (made positive w) else made positive w)
              v
              0)
      × (same ≡ false
          → IsBigInt (if some && not same then flip_sign (made positive w) else made positive w)
            × Represents
                (if some && not same then flip_sign (made positive w) else made positive w)
                0
                v)
multiply_signs true true w v h e z =
    (λ g. kept w v 0 h (omega (arith, e)), λ g. absurd (grind (arith, g)))
multiply_signs true false w v h e z =
    (λ g. kept w v 0 h (omega (arith, e)), λ g. absurd (grind (arith, g)))
multiply_signs false true w v h e z =
    (λ g. absurd (grind (arith, g)), λ g. flipped w 0 v h (omega (arith, e)))
multiply_signs false false w v h e z =
    (λ g. absurd (grind (arith, g)), λ g. kept w 0 v h (omega (arith, e, z refl)))

signs_lem :
    (a b : BigInt)
    → AreWords a.reg
    → AreWords b.reg
    → (same_sign a.signedness b.signedness ≡ true
        → IsBigInt (multiply a b) × Represents (multiply a b) (magnitude a * magnitude b) 0)
      × (same_sign a.signedness b.signedness ≡ false
          → IsBigInt (multiply a b) × Represents (multiply a b) 0 (magnitude a * magnitude b))
unfolding multiply
signs_lem a b ha hb =
    let (product, words) = product_words_lem a b ha hb in
    multiply_signs (same_sign a.signedness b.signedness)
      (not (sig_words a == 0) && not (sig_words b == 0)) (product_words a b)
      (magnitude a * magnitude b) words product (zero_product a b)

multiply_cases :
    (s t : Sign) (x y : List ℕ)
    → IsBigInt (made s x)
    → IsBigInt (made t y)
    → IsBigInt (multiply (made s x) (made t y))
      × Represents
          (multiply (made s x) (made t y))
          (plus (made s x) * plus (made t y) + minus (made s x) * minus (made t y))
          (plus (made s x) * minus (made t y) + minus (made s x) * plus (made t y))
unfolding multiply same_sign
multiply_cases positive positive x y hx hy =
    let a = made positive x in
    let b = made positive y in
    let (whole, sum) = (signs_lem a b hx.0 hy.0).0 refl in (whole, omega (arith, sum))
multiply_cases positive negative x y hx hy =
    let a = made positive x in
    let b = made negative y in
    let (whole, sum) = (signs_lem a b hx.0 hy.0).1 refl in (whole, omega (arith, sum))
multiply_cases negative positive x y hx hy =
    let a = made negative x in
    let b = made positive y in
    let (whole, sum) = (signs_lem a b hx.0 hy.0).1 refl in (whole, omega (arith, sum))
multiply_cases negative negative x y hx hy =
    let a = made negative x in
    let b = made negative y in
    let (whole, sum) = (signs_lem a b hx.0 hy.0).0 refl in (whole, omega (arith, sum))

-- The result of operator* on two integers that hold words and have no sign for zero is their product
-- as integers and is such an integer, whatever the signs and sizes.
pub multiply-Represents :
    (x y : BigInt)
    → IsBigInt x
    → IsBigInt y
    → IsBigInt (multiply x y)
      × Represents
          (multiply x y)
          (plus x * plus y + minus x * minus y)
          (plus x * minus y + minus x * plus y)
multiply-Represents x y hx hy = multiply_cases x.signedness y.signedness x.reg y.reg hx hy

shift_room :
    (sw words bits : ℕ)
    → words + sw + (if bits == 0 then 0 else 1)
      ≤ round_up (sw + words + (if bits == 0 then 0 else 1)) 8
unfolding round_up
shift_room sw words bits = ground arith

unshifted : (shift v : ℕ) → shift ≡ 0 → v ≡ raised (shift / 32) (2 ^ (shift % 32) * v)
unfolding raised
unshifted shift v e =
    let one : v ≡ raised (0 / 32) (2 ^ (0 % 32) * v) = omega arith in
    one ∙ ap (λ n. raised (n / 32) (2 ^ (n % 32) * v)) (sym e)

-- For an integer that holds words and has no sign for zero, operator<< multiplies the magnitude by
-- the power of two, in whole words, and keeps the sign.
pub shift_left_lem :
    (x : BigInt) (shift : ℕ)
    → IsBigInt x
    → (magnitude (shift_left x shift) ≡ raised (shift / 32) (2 ^ (shift % 32) * magnitude x))
      × AreWords (shift_left x shift).reg
      × ((shift_left x shift).signedness ≡ x.signedness)
unfolding shift_left sized
shift_left_lem x shift hx =
    let P = λ (r : BigInt).
      (magnitude r ≡ raised (shift / 32) (2 ^ (shift % 32) * magnitude x))
      × AreWords r.reg
      × (r.signedness ≡ x.signedness) in
    by_if P (shift == 0) _ _
      (λ none.
        let (same, words, sign) = copy_lem x hx in
        (same ∙ unshifted shift (magnitude x) ((==_iff shift 0).0 none), words, sign))
      (λ some.
        let (words, same, count) = significant_lem x hx.0 in
        let (result, result_words, size) =
          bigint_shl2_lem (significant x) (shift / 32) (shift % 32)
            (round_up (sig_words x + shift / 32 + (if shift % 32 == 0 then 0 else 1)) 8) words
            (omega arith)
            (omega (arith, count, shift_room (sig_words x) (shift / 32) (shift % 32))) in
        (result ∙ ap (λ v. raised (shift / 32) (2 ^ (shift % 32) * v)) same, result_words, refl))
