-- ===== src/Math/Mp/Add.antt =====
-- Addition of arrays.
use php_botan.Base.{
  ℕ, ◌+◌, ◌≤◌, ◌≡◌, arith, List, length, All-append, Bool-cases, inl, inr, false, ltb, ◌==◌, ==_iff,
  if◌then◌else◌,
}
use php_botan.Base.Words.{IsU32}
use php_botan.Math.Value.{AreWords, value, raised, raised-zero}
use php_botan.Math.Mp.{increment, bigint_add2_nc, add_carry, add3_ordered, bigint_add3_nc}
use php_botan.Math.Mp.Sums.{
  low_sum, high_x, low_sum_lem, joined, increment_lem, add_carry_lem, high_words,
}

-- What a sum of two arrays is: with its carry it stands for the sum of the numbers.
abbrev pub IsSum : List ℕ → List ℕ → List ℕ × ℕ → Type 0
IsSum x y (z, c) = (value z + raised (length x) c ≡ value x + value y) × AreWords z

-- The two-operand addition, for a second array that is no longer: the words and the carry that it
-- returns stand for the sum.
pub bigint_add2_nc-IsSum :
    (x y : List ℕ) → AreWords x → AreWords y → length y ≤ length x → IsSum x y (bigint_add2_nc x y)
unfolding bigint_add2_nc low_sum high_x
bigint_add2_nc-IsSum x y hx hy le =
    let low = low_sum_lem x y hx hy le in
    let high = high_words x y hx hy le in
    elim (Bool-cases ((low_sum x y hx hy le).1 == 0)) [
      | inl none_left ↦
          let e : (low_sum x y hx hy le).1 ≡ 0 = (==_iff (low_sum x y hx hy le).1 0).0 none_left in
          rw none_left (
            joined x y hx hy le (high_x x y hx hy le) 0
                (omega (arith, e, raised-zero (length (high_x x y hx hy le)))),
            All-append IsU32 (low_sum x y hx hy le).0 (high_x x y hx hy le) low.1 high,
          )
      | inr one_left ↦
          let e : (low_sum x y hx hy le).1 ≡ 1 = one (low_sum x y hx hy le).1 low.2 one_left in
          let more = increment_lem (high_x x y hx hy le) high in
          rw one_left (
            joined x y hx hy le (increment (high_x x y hx hy le)).0
                (increment (high_x x y hx hy le)).1 (omega (arith, e, more.0)),
            All-append IsU32 (low_sum x y hx hy le).0 (increment (high_x x y hx hy le)).0 low.1
                more.1,
          )
    ]
  where
    one : (c : ℕ) → c ≤ 1 → (c == 0) ≡ false → c ≡ 1
    one c h e = ground arith

add3_ordered-IsSum :
    (x y : List ℕ) → AreWords x → AreWords y → length y ≤ length x → IsSum x y (add3_ordered x y)
unfolding add3_ordered low_sum high_x
add3_ordered-IsSum x y hx hy le =
    let low = low_sum_lem x y hx hy le in
    let high = high_words x y hx hy le in
    let more = add_carry_lem (low_sum x y hx hy le).1 (high_x x y hx hy le) low.2 high in
    (
      joined x y hx hy le (add_carry (low_sum x y hx hy le).1 (high_x x y hx hy le)).0
          (add_carry (low_sum x y hx hy le).1 (high_x x y hx hy le)).1 more.0,
      All-append IsU32 (low_sum x y hx hy le).0
          (add_carry (low_sum x y hx hy le).1 (high_x x y hx hy le)).0 low.1 more.1,
    )

-- The three-operand addition, in either order of the sizes: the words and the carry that it returns
-- stand for the sum, the carry above the longer array.
pub bigint_add3_nc-IsSum :
    (x y : List ℕ)
    → AreWords x
    → AreWords y
    → (value (bigint_add3_nc x y).0
          + raised (if ltb (length x) (length y) then length y else length x) (bigint_add3_nc x y).1
        ≡ value x + value y)
      × AreWords (bigint_add3_nc x y).0
unfolding bigint_add3_nc
bigint_add3_nc-IsSum x y hx hy = elim (Bool-cases (ltb (length x) (length y))) [
  | inl shorter ↦
      let sums = add3_ordered-IsSum y x hy hx (ground arith) in
      rw shorter (omega (arith, sums.0), sums.1)
  | inr longer ↦ rw longer (add3_ordered-IsSum x y hx hy (ground arith))
]
