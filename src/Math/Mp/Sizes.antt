-- ===== src/Math/Mp/Sizes.antt =====
-- The sizes of the results.
use php_botan.Base.{
  ℕ, suc, ◌+◌, ◌-◌, ◌*◌, ◌/◌, ◌^◌, ◌≤◌, ◌≡◌, refl, ap, ◌∙◌, arith, not, ◌&&◌, ltb, ◌==◌,
  if◌then◌else◌, Bool-cases, inl, inr, List, [], ◌∷◌, ◌++◌, length, take, drop, length-take,
  length-drop, length-append, length-replicate, replicate,
}
use php_botan.Base.Words.{u32}
use php_botan.Math.Carry.{eights, eights-carry_loop, length-carry_loop}
use php_botan.Math.Word.{word_madd2}
use php_botan.Math.Mp.{
  pairs, add_pair, sub_pair, madd_pair, increment, bigint_add2_nc, add_carry, add3_ordered,
  bigint_add3_nc, decrement, bigint_sub2, sub_carry, bigint_sub3, mul_rows, bigint_simple_mul,
  bigint_simple_sqr, bigint_linmul3,
}
use php_botan.Math.Mp.Pairs.{length-pairs}
use php_botan.Math.Mp.Sums.{length-increment, length-add_carry}

length-eights :
    (op : ℕ × ℕ → ℕ → ℕ × ℕ) (k c : ℕ) (xs ys : List ℕ)
    → length xs ≡ length ys
    → length (eights op k c (pairs xs ys)).0 ≡ length ys
length-eights op k c xs ys same =
    ap (λ (r : List ℕ × ℕ). length r.0) (eights-carry_loop op k c (pairs xs ys))
    ∙ length-carry_loop op c (pairs xs ys)
    ∙ length-pairs xs ys same

length-decrement : (xs : List ℕ) → length (decrement xs) ≡ length xs
unfolding decrement
length-decrement [] = refl
length-decrement (x ∷ xs) = elim (Bool-cases (u32 (x + 2 ^ 32 - 1) == 2 ^ 32 - 1)) [
  | inl on ↦ rw on (ap suc (length-decrement xs))
  | inr stop ↦ rw stop refl
]

length-sub_carry : (c : ℕ) (xs : List ℕ) → length (sub_carry c xs) ≡ length xs
unfolding sub_carry
length-sub_carry c [] = refl
length-sub_carry c (x ∷ xs) = ap suc (
    length-sub_carry (if not (c == 0) && not (u32 (x + 2 ^ 32 - c) == 2 ^ 32 - 1) then 0 else c) xs)

-- An array whose lower part is replaced.
length-replaced :
    (n : ℕ) (x low high : List ℕ)
    → n ≤ length x
    → length low ≡ n
    → length high ≡ length (drop n x)
    → length (low ++ high) ≡ length x
length-replaced n x low high le e g = omega (arith, length-append low high, length-drop n x)

module _ (x y : List ℕ) (le : length y ≤ length x) where
  same : length (take (length y) x) ≡ length y
  same = omega (arith, length-take (length y) x)

  pub length-bigint_sub3 : length (bigint_sub3 x y) ≡ length x
  unfolding bigint_sub3
  length-bigint_sub3 =
      let low = eights sub_pair (length y / 8) 0 (pairs (take (length y) x) y) in
      length-replaced (length y) x low.0 (sub_carry low.1 (drop (length y) x)) le
        (length-eights sub_pair (length y / 8) 0 (take (length y) x) y same)
        (length-sub_carry low.1 (drop (length y) x))

  pub length-bigint_sub2 : length (bigint_sub2 x y) ≡ length x
  unfolding bigint_sub2
  length-bigint_sub2 =
      let low = eights sub_pair (length y / 8) 0 (pairs (take (length y) x) y) in
      let size = length-eights sub_pair (length y / 8) 0 (take (length y) x) y same in
      elim (Bool-cases (low.1 == 0)) [
        | inl none_left ↦
            rw none_left (length-replaced (length y) x low.0 (drop (length y) x) le size refl)
        | inr one_left ↦ rw one_left (
            length-replaced (length y) x low.0 (decrement (drop (length y) x)) le size
              (length-decrement (drop (length y) x)))
      ]

  pub length-bigint_add2_nc : length (bigint_add2_nc x y).0 ≡ length x
  unfolding bigint_add2_nc
  length-bigint_add2_nc =
      let low = eights add_pair (length y / 8) 0 (pairs (take (length y) x) y) in
      let size = length-eights add_pair (length y / 8) 0 (take (length y) x) y same in
      elim (Bool-cases (low.1 == 0)) [
        | inl none_left ↦
            rw none_left (length-replaced (length y) x low.0 (drop (length y) x) le size refl)
        | inr one_left ↦ rw one_left (
            length-replaced (length y) x low.0 (increment (drop (length y) x)).0 le size
              (length-increment (drop (length y) x)))
      ]

  pub length-add3_ordered : length (add3_ordered x y).0 ≡ length x
  unfolding add3_ordered
  length-add3_ordered =
      let low = eights add_pair (length y / 8) 0 (pairs (take (length y) x) y) in
      length-replaced (length y) x low.0 (add_carry low.1 (drop (length y) x)).0 le
        (length-eights add_pair (length y / 8) 0 (take (length y) x) y same)
        (length-add_carry low.1 (drop (length y) x))

pub length-bigint_add3_nc :
    (x y : List ℕ)
    → length (bigint_add3_nc x y).0 ≡ (if ltb (length x) (length y) then length y else length x)
unfolding bigint_add3_nc
length-bigint_add3_nc x y = elim (Bool-cases (ltb (length x) (length y))) [
  | inl shorter ↦ rw shorter (length-add3_ordered y x (ground arith))
  | inr longer ↦ rw longer (length-add3_ordered x y (ground arith))
]

length-mul_rows :
    (x ys z : List ℕ) → length z ≡ length x + length ys → length (mul_rows x ys z) ≡ length z
unfolding mul_rows
length-mul_rows x [] z h = refl
length-mul_rows x (y ∷ ys) z h =
    let row = eights (madd_pair y) (length x / 8) 0 (pairs x (take (length x) z)) in
    let z' = row.0 ++ (row.1 ∷ drop (length x + 1) z) in
    let taken = length-take (length x) z in
    let kept : length x ≡ length (take (length x) z) = omega arith in
    let low = length-eights (madd_pair y) (length x / 8) 0 x (take (length x) z) kept in
    let size : length z' ≡ length z =
      omega (
        arith,
        length-append row.0 (row.1 ∷ drop (length x + 1) z),
        length-drop (length x + 1) z,
      ) in
    let rest = length-mul_rows x ys (drop 1 z') (omega (arith, length-drop 1 z')) in
    omega (
      arith,
      length-append (take 1 z') (mul_rows x ys (drop 1 z')),
      length-take 1 z',
      length-drop 1 z',
      rest,
      size,
    )

pub length-bigint_simple_mul : (x y : List ℕ) → length (bigint_simple_mul x y) ≡ length x + length y
unfolding bigint_simple_mul
length-bigint_simple_mul x y =
    let zeros = length-replicate {A = ℕ} (length x + length y) 0 in
    omega (arith, zeros, length-mul_rows x y (replicate (length x + length y) 0) zeros)

pub length-bigint_simple_sqr : (x : List ℕ) → length (bigint_simple_sqr x) ≡ length x + length x
unfolding bigint_simple_sqr
length-bigint_simple_sqr x =
    let zeros = length-replicate {A = ℕ} (2 * length x) 0 in
    omega (arith, zeros, length-mul_rows x x (replicate (2 * length x) 0) (omega (arith, zeros)))

pub length-bigint_linmul3 : (x : List ℕ) (y : ℕ) → length (bigint_linmul3 x y) ≡ length x + 1
unfolding bigint_linmul3
length-bigint_linmul3 x y =
    let step = λ (a c : ℕ). word_madd2 a y c in
    let low = eights step (length x / 8) 0 x in
    omega (
      arith,
      length-append low.0 (low.1 ∷ []),
      ap (λ (r : List ℕ × ℕ). length r.0) (eights-carry_loop step (length x / 8) 0 x),
      length-carry_loop step 0 x,
    )
