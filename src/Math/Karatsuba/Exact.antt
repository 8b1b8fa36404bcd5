-- ===== src/Math/Karatsuba/Exact.antt =====
-- math/bigint/mp_karat.cpp: the functions by halves compute products and squares.
use php_botan.Base.{
  ℕ, zero, suc, ◌+◌, ◌/◌, ◌%◌, ◌<◌, ◌≤◌, ◌≡◌, refl, sym, ◌∙◌, arith, false, not, ◌||◌, ◌==◌, ==_iff,
  ltb, Bool-cases, inl, inr, List, length,
}
use php_botan.Math.Value.{AreWords}
use php_botan.Math.Mp.Mul.{bigint_simple_mul_lem, bigint_simple_sqr_lem}
use php_botan.Math.Mp.Sizes.{length-bigint_simple_mul, length-bigint_simple_sqr}
use php_botan.Math.Comba.Exact.{
  IsProduct, bigint_comba_mul6_lem, bigint_comba_mul8_lem, bigint_comba_mul16_lem,
  bigint_comba_sqr6_lem, bigint_comba_sqr8_lem, bigint_comba_sqr16_lem,
}
use php_botan.Math.Karatsuba.{
  karatsuba_mul, karatsuba_sqr, karat_mul_threshold, karat_sqr_threshold,
}
use php_botan.Math.Karatsuba.MulHalves.{Multiplies, mul_halves_lem}
use php_botan.Math.Karatsuba.SqrHalves.{Squares, sqr_halves_lem}

-- What the sizes that are halved are like.
halved :
    (n fuel : ℕ)
    → n < suc fuel
    → (ltb n 32 || not (n % 2 == 0)) ≡ false
    → (n ≡ n / 2 + n / 2) × (1 ≤ n / 2) × (n / 2 < fuel)
halved n fuel h e = ground arith

-- Multiplication by halves computes the product, in twice as many words, for arrays of every common
-- size: enough fuel is more than the size.
pub karatsuba_mul-Multiplies : (fuel n : ℕ) → n < fuel → Multiplies (karatsuba_mul fuel) n
unfolding karatsuba_mul
karatsuba_mul-Multiplies zero n h x y hx hy nx ny = absurd (omega arith)
karatsuba_mul-Multiplies (suc fuel) n h x y hx hy nx ny = elim (Bool-cases (length x == 6)) [
  | inl six ↦
      let e = (==_iff (length x) 6).0 six in
      rw (six, karatsuba_mul) (bigint_comba_mul6_lem x y hx hy e (ny ∙ sym nx ∙ e))
  | inr not_six ↦ elim (Bool-cases (length x == 8)) [
    | inl eight ↦
        let e = (==_iff (length x) 8).0 eight in
        rw (not_six, eight, karatsuba_mul) (bigint_comba_mul8_lem x y hx hy e (ny ∙ sym nx ∙ e))
    | inr not_eight ↦ elim (Bool-cases (length x == 16)) [
      | inl sixteen ↦
          let e = (==_iff (length x) 16).0 sixteen in
          rw (not_six, not_eight, sixteen, karatsuba_mul)
            (bigint_comba_mul16_lem x y hx hy e (ny ∙ sym nx ∙ e))
      | inr not_sixteen ↦
          elim (Bool-cases (ltb (length x) karat_mul_threshold || not (length x % 2 == 0))) [
            | inl small ↦
                let (product, words) = bigint_simple_mul_lem x y hx hy in
                rw (not_six, not_eight, not_sixteen, small, karatsuba_mul)
                  (product, words, length-bigint_simple_mul x y)
            | inr large ↦
                let (twice, some, enough) = halved (length x) fuel (omega arith) large in
                rw (not_six, not_eight, not_sixteen, large, karatsuba_mul)
                  (mul_halves_lem (karatsuba_mul fuel) (length x / 2)
                    (karatsuba_mul-Multiplies fuel (length x / 2) enough) some x y hx hy twice
                    (ny ∙ sym nx ∙ twice))
          ]
    ]
  ]
]

-- Squaring by halves computes the square likewise.
pub karatsuba_sqr-Squares : (fuel n : ℕ) → n < fuel → Squares (karatsuba_sqr fuel) n
unfolding karatsuba_sqr
karatsuba_sqr-Squares zero n h x hx nx = absurd (omega arith)
karatsuba_sqr-Squares (suc fuel) n h x hx nx = elim (Bool-cases (length x == 6)) [
  | inl six ↦ rw (six, karatsuba_sqr) (bigint_comba_sqr6_lem x hx ((==_iff (length x) 6).0 six))
  | inr not_six ↦ elim (Bool-cases (length x == 8)) [
    | inl eight ↦
        rw (not_six, eight, karatsuba_sqr)
          (bigint_comba_sqr8_lem x hx ((==_iff (length x) 8).0 eight))
    | inr not_eight ↦ elim (Bool-cases (length x == 16)) [
      | inl sixteen ↦
          rw (not_six, not_eight, sixteen, karatsuba_sqr)
            (bigint_comba_sqr16_lem x hx ((==_iff (length x) 16).0 sixteen))
      | inr not_sixteen ↦
          elim (Bool-cases (ltb (length x) karat_sqr_threshold || not (length x % 2 == 0))) [
            | inl small ↦
                let (square, words) = bigint_simple_sqr_lem x hx in
                rw (not_six, not_eight, not_sixteen, small, karatsuba_sqr)
                  (square, words, length-bigint_simple_sqr x)
            | inr large ↦
                let (twice, some, enough) = halved (length x) fuel (omega arith) large in
                rw (not_six, not_eight, not_sixteen, large, karatsuba_sqr)
                  (sqr_halves_lem (karatsuba_sqr fuel) (length x / 2)
                    (karatsuba_sqr-Squares fuel (length x / 2) enough) some x hx twice)
          ]
    ]
  ]
]

-- For two arrays of words of one size, karatsuba_mul ends with the product of the numbers, in twice
-- as many words, where the depth that is allowed is above the size.
pub karatsuba_mul_lem :
    (fuel : ℕ) (x y : List ℕ)
    → AreWords x
    → AreWords y
    → length y ≡ length x
    → length x < fuel
    → IsProduct x y (karatsuba_mul fuel x y)
karatsuba_mul_lem fuel x y hx hy same enough =
    karatsuba_mul-Multiplies fuel (length x) enough x y hx hy refl same
