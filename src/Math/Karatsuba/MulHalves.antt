-- ===== src/Math/Karatsuba/MulHalves.antt =====
-- math/bigint/mp_karat.cpp: the branch of products by halves, over a function that multiplies the halves.
use php_botan.Base.{
  ℕ, ◌+◌, ◌*◌, ◌/◌, ◌≤◌, ◌≡◌, refl, sym, ap, ap₂, ◌∙◌, arith, true, false, List, length, take, drop,
  replicate, length-replicate,
}
use mathlib.Core.Path.{subst}
use Prim.Native.Nat.{Ordering}
use php_botan.Math.Value.{AreWords, value, raised, value-zeros, zeros-AreWords}
use php_botan.Math.Mp.{bigint_sub3, bigint_cmp}
use php_botan.Math.Mp.Order.{Decides, bigint_cmp-Decides}
use php_botan.Math.Comba.Exact.{IsProduct, product-lt}
use php_botan.Math.Karatsuba.{difference, adds_product, both_differ, mul_at, mul_halves}
use php_botan.Math.Karatsuba.Numbers.{same_signs}
use php_botan.Math.Karatsuba.Halves.{Signed, subtracted, whole, halves_lem, equal_left}

-- A function that multiplies arrays of `n` words.
abbrev pub Multiplies : (List ℕ → List ℕ → List ℕ) → ℕ → Type 0
Multiplies f n =
    (x y : List ℕ) → AreWords x → AreWords y → length x ≡ n → length y ≡ n → IsProduct x y (f x y)

equal_right : (a b c d : ℕ) → d ≡ c → a * c + b * d ≡ a * d + b * c
equal_right a b c d e = rw e refl

module _ (f : List ℕ → List ℕ → List ℕ) (n : ℕ) (mult : Multiplies f n) where
  -- The product of two differences.
  crossing :
      (a b c d : List ℕ)
      → AreWords a × (length a ≡ n)
      → AreWords b × (length b ≡ n)
      → AreWords c × (length c ≡ n)
      → AreWords d × (length d ≡ n)
      → value b ≤ value a
      → value d ≤ value c
      → AreWords (f (bigint_sub3 a b) (bigint_sub3 c d))
        × (length (f (bigint_sub3 a b) (bigint_sub3 c d)) ≡ n + n)
        × (value a * value d + value b * value c + value (f (bigint_sub3 a b) (bigint_sub3 c d))
            ≡ value a * value c + value b * value d)
  crossing a b c d (ha, na) (hb, nb) (hc, nc) (hd, nd) le le' =
      let (x, hx, nx) = subtracted n a b ha hb na nb le in
      let (y, hy, ny) = subtracted n c d hc hd nc nd le' in
      let (product, words, size) = mult (bigint_sub3 a b) (bigint_sub3 c d) hx hy nx ny in
      (
        words,
        omega (arith, size, nx, ny),
        rw (x, y, product)
            (same_signs (value b) (value d) (value (bigint_sub3 a b)) (value (bigint_sub3 c d))),
      )

  module _ (x0 x1 y0 y1 : List ℕ) (hx0 : AreWords x0 × (length x0 ≡ n))
      (hx1 : AreWords x1 × (length x1 ≡ n)) (hy0 : AreWords y0 × (length y0 ≡ n))
      (hy1 : AreWords y1 × (length y1 ≡ n)) where
    abbrev straight' : ℕ
    straight' = value x0 * value y0 + value x1 * value y1

    abbrev across' : ℕ
    across' = value x0 * value y1 + value x1 * value y0

    nothing : straight' ≡ across' → Signed true (replicate (n + n) 0) (n + n) straight' across'
    nothing e =
        (zeros-AreWords (n + n), length-replicate (n + n) 0, omega (arith, e, value-zeros (n + n)))

    signed_lem :
        (o o' : Ordering)
        → Decides o (value x0) (value x1)
        → Decides o' (value y1) (value y0)
        → Signed
            (adds_product o o')
            (elim (both_differ o o') as (λ b. List ℕ) [
              | true ↦ f (difference o x0 x1) (difference o' y1 y0)
              | false ↦ replicate (n + n) 0
            ])
            (n + n)
            straight'
            across'
    unfolding adds_product both_differ difference
    signed_lem Ordering.eq o' d d' = left o'
      where
        left :
            (o' : Ordering)
            → Signed (adds_product Ordering.eq o') (replicate (n + n) 0) (n + n) straight' across'
        left Ordering.eq = nothing (equal_left (value x0) (value x1) (value y0) (value y1) d)
        left Ordering.lt = nothing (equal_left (value x0) (value x1) (value y0) (value y1) d)
        left Ordering.gt = nothing (equal_left (value x0) (value x1) (value y0) (value y1) d)
    signed_lem Ordering.lt Ordering.eq d d' =
        nothing (equal_right (value x0) (value x1) (value y0) (value y1) d')
    signed_lem Ordering.gt Ordering.eq d d' =
        nothing (equal_right (value x0) (value x1) (value y0) (value y1) d')
    signed_lem Ordering.lt Ordering.lt d d' =
        let (words, size, sum) = crossing x1 x0 y0 y1 hx1 hx0 hy0 hy1 (omega arith) (omega arith) in
        (words, size, omega (arith, sum))
    signed_lem Ordering.lt Ordering.gt d d' =
        let (words, size, sum) = crossing x1 x0 y1 y0 hx1 hx0 hy1 hy0 (omega arith) (omega arith) in
        (words, size, omega (arith, sum))
    signed_lem Ordering.gt Ordering.lt d d' =
        let (words, size, sum) = crossing x0 x1 y0 y1 hx0 hx1 hy0 hy1 (omega arith) (omega arith) in
        (words, size, omega (arith, sum))
    signed_lem Ordering.gt Ordering.gt d d' =
        let (words, size, sum) = crossing x0 x1 y1 y0 hx0 hx1 hy1 hy0 (omega arith) (omega arith) in
        (words, size, omega (arith, sum))

  mul_at_lem :
      (x y : List ℕ)
      → AreWords x
      → AreWords y
      → length x ≡ n + n
      → length y ≡ n + n
      → 1 ≤ n
      → IsProduct x y (mul_at f n (n + n) x y)
  unfolding mul_at
  mul_at_lem x y hx hy nx ny some =
      let (x_parts, x_low, x_high) = halves_lem n x hx nx in
      let (y_parts, y_low, y_high) = halves_lem n y hy ny in
      let fits = product-lt x y hx hy in
      let both = ap₂ (λ a b. a * b) x_parts y_parts in
      let cmp0 = bigint_cmp (take n x) (drop n x) in
      let cmp1 = bigint_cmp (drop n y) (take n y) in
      let signed =
        signed_lem (take n x) (drop n x) (take n y) (drop n y) x_low x_high y_low y_high cmp0 cmp1
          (bigint_cmp-Decides (take n x) (drop n x) x_low.0 x_high.0)
          (bigint_cmp-Decides (drop n y) (take n y) y_high.0 y_low.0) in
      let size : length x + length y ≡ n + n + (n + n) = omega arith in
      let (product, words, count) =
        whole n (take n x) (drop n x) (take n y) (drop n y) _ _ x_low x_high y_low y_high
          (mult (take n x) (take n y) x_low.0 y_low.0 x_low.1 y_low.1)
          (mult (drop n x) (drop n y) x_high.0 y_high.0 x_high.1 y_high.1) (adds_product cmp0 cmp1)
          _ some (omega (arith, both, fits, ap (λ k. raised k 1) size)) signed in
      (product ∙ sym both, words, count ∙ sym size)

  -- The branch by halves multiplies where the function multiplies the halves.
  pub mul_halves_lem : 1 ≤ n → Multiplies (mul_halves f) (n + n)
  unfolding mul_halves
  mul_halves_lem some x y hx hy nx ny =
      let half : length x / 2 ≡ n = omega arith in
      subst (IsProduct x y) (sym (ap₂ (λ a b. mul_at f a b x y) half nx))
        (mul_at_lem x y hx hy nx ny some)
