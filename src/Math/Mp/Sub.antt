-- ===== src/Math/Mp/Sub.antt =====
-- Subtraction of arrays.
use php_botan.Base.{
  ℕ, zero, suc, ◌+◌, ◌-◌, ◌*◌, ◌^◌, ◌<◌, ◌≤◌, ◌≡◌, ap, arith, List, [], ◌∷◌, ◌++◌, length,
  All-append, Bool-cases, inl, inr, true, false, not, ◌&&◌, ◌==◌, ==_iff,
}
use php_botan.Base.Words.{IsU32, u32}
use php_botan.Math.Value.{AreWords, value, raised, raised-add, raised-zero, value-append, value-lt}
use php_botan.Math.Mp.{decrement, bigint_sub2, sub_carry, bigint_sub3}
use php_botan.Math.Mp.Sums.{
  low_x, high_x, low_difference, low_difference_lem, length-low_difference, high_words, parts_of_x,
}

decrement_lem :
    (xs : List ℕ)
    → AreWords xs
    → 1 ≤ value xs
    → (value (decrement xs) + 1 ≡ value xs) × AreWords (decrement xs)
unfolding decrement value
decrement_lem [] h g = absurd (omega arith)
decrement_lem (x ∷ xs) (h, hs) g = ground (arith, decrement_lem xs hs)

sub_carry_lem :
    (c : ℕ) (xs : List ℕ)
    → AreWords xs
    → c ≤ 1
    → c ≤ value xs
    → (value (sub_carry c xs) + c ≡ value xs) × AreWords (sub_carry c xs)
unfolding sub_carry value
sub_carry_lem c [] h k g = (omega arith, tt)
sub_carry_lem c (x ∷ xs) (h, hs) k g =
    elim (Bool-cases (not (c == 0) && not (u32 (x + 2 ^ 32 - c) == 2 ^ 32 - 1))) [
      | inl stop ↦
          let rest = sub_carry_lem 0 xs hs (omega arith) (omega arith) in
          rw stop (omega (arith, rest.0, borrow_stops stop), (omega arith, rest.1))
      | inr on ↦
          let rest = sub_carry_lem c xs hs k (borrow_left on) in
          rw on (omega (arith, rest.0, borrow_goes on), (omega arith, rest.1))
    ]
  where
    borrow_stops :
        (not (c == 0) && not (u32 (x + 2 ^ 32 - c) == 2 ^ 32 - 1)) ≡ true
        → u32 (x + 2 ^ 32 - c) + c ≡ x
    borrow_stops e = ground arith

    borrow_goes :
        (not (c == 0) && not (u32 (x + 2 ^ 32 - c) == 2 ^ 32 - 1)) ≡ false
        → u32 (x + 2 ^ 32 - c) + c ≡ x + 2 ^ 32 * c
    borrow_goes e = ground arith

    borrow_left : (not (c == 0) && not (u32 (x + 2 ^ 32 - c) == 2 ^ 32 - 1)) ≡ false → c ≤ value xs
    borrow_left e = ground arith

module _ (x y : List ℕ) (hx : AreWords x) (hy : AreWords y) (le : length y ≤ length x)
    (fits : value y ≤ value x) where
  low : List ℕ × ℕ
  low = low_difference x y hx hy le

  high : List ℕ
  high = high_x x y hx hy le

  -- What is borrowed is there.
  borrow : low.1 ≤ value high
  unfolding low high
  borrow =
      available (value high) low.1 sums.2 (omega (arith, sums.0, below, parts_of_x x y hx hy le))
    where
      m : ℕ
      m = length y

      sums :
          (value low.0 + value y ≡ value (low_x x y hx hy le) + raised (length y) low.1)
          × AreWords low.0
          × (low.1 ≤ 1)
      sums = low_difference_lem x y hx hy le

      below : value low.0 < raised (length y) 1
      below =
          let lt = value-lt low.0 sums.1 in
          omega (arith, lt, ap (λ (n : ℕ). raised n 1) (length-low_difference x y hx hy le))

      available :
          (v c : ℕ)
          → c ≤ 1
          → raised (length y) c < raised (length y) v + raised (length y) 1
          → c ≤ v
      available zero zero h g = omega arith
      available zero (suc zero) h g = absurd (omega (arith, raised-zero (length y)))
      available zero (suc (suc c)) h g = absurd (omega arith)
      available (suc v) c h g = omega arith

  difference_joined :
      (zh : List ℕ) → value zh + low.1 ≡ value high → value (low.0 ++ zh) + value y ≡ value x
  unfolding low high
  difference_joined zh e = omega (
    arith,
    value-append low.0 zh,
    ap (λ (n : ℕ). raised n (value zh)) (length-low_difference x y hx hy le),
    parts_of_x x y hx hy le,
    (low_difference_lem x y hx hy le).0,
    raised-add (length y) (value zh) low.1,
    ap (raised (length y)) e,
  )

  -- The two-operand subtraction of a number that is no larger: the words stand for the difference.
  pub bigint_sub2_lem : (value (bigint_sub2 x y) + value y ≡ value x) × AreWords (bigint_sub2 x y)
  unfolding bigint_sub2 low high low_difference high_x
  bigint_sub2_lem =
      let sums = low_difference_lem x y hx hy le in
      let words = high_words x y hx hy le in
      elim (Bool-cases (low.1 == 0)) [
        | inl none_left ↦
            let e : low.1 ≡ 0 = (==_iff low.1 0).0 none_left in
            rw none_left
              (difference_joined high (omega (arith, e)), All-append IsU32 low.0 high sums.1 words)
        | inr one_left ↦
            let e : low.1 ≡ 1 = one low.1 sums.2 one_left in
            let less = decrement_lem high words (omega (arith, e, borrow)) in
            rw one_left (
              difference_joined (decrement high) (omega (arith, e, less.0)),
              All-append IsU32 low.0 (decrement high) sums.1 less.1,
            )
      ]
    where
      one : (c : ℕ) → c ≤ 1 → (c == 0) ≡ false → c ≡ 1
      one c h e = ground arith

  -- The three-operand subtraction of a number that is no larger: the words stand for the difference.
  pub bigint_sub3_lem : (value (bigint_sub3 x y) + value y ≡ value x) × AreWords (bigint_sub3 x y)
  unfolding bigint_sub3 low high low_difference high_x
  bigint_sub3_lem =
      let sums = low_difference_lem x y hx hy le in
      let less = sub_carry_lem low.1 high (high_words x y hx hy le) sums.2 borrow in
      (
        difference_joined (sub_carry low.1 high) less.0,
        All-append IsU32 low.0 (sub_carry low.1 high) sums.1 less.1,
      )
