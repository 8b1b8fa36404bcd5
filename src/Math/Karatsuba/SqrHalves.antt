-- ===== src/Math/Karatsuba/SqrHalves.antt =====
-- math/bigint/mp_karat.cpp: the branch of squares by halves, over a function that squares the halves.
use php_botan.Base.{
  ℕ, ◌+◌, ◌*◌, ◌/◌, ◌≤◌, ◌≡◌, sym, ap, ap₂, ◌∙◌, arith, List, length, take, drop, replicate,
  length-replicate,
}
use mathlib.Core.Path.{subst}
use Prim.Native.Nat.{Ordering}
use php_botan.Math.Value.{AreWords, value, raised, value-zeros, zeros-AreWords}
use php_botan.Math.Mp.{bigint_sub3, bigint_cmp}
use php_botan.Math.Mp.Order.{Decides, bigint_cmp-Decides}
use php_botan.Math.Comba.Exact.{IsProduct, product-lt}
use php_botan.Math.Karatsuba.{is_zero, sqr_at, sqr_halves}
use php_botan.Math.Karatsuba.Numbers.{same_signs}
use php_botan.Math.Karatsuba.Halves.{Signed, subtracted, whole, halves_lem, equal_left}

-- A function that squares arrays of `n` words.
abbrev pub Squares : (List ℕ → List ℕ) → ℕ → Type 0
Squares f n = (x : List ℕ) → AreWords x → length x ≡ n → IsProduct x x (f x)

module _ (f : List ℕ → List ℕ) (n : ℕ) (squares : Squares f n) where
  -- The product of a difference and itself.
  square_crossing :
      (a b : List ℕ)
      → AreWords a × (length a ≡ n)
      → AreWords b × (length b ≡ n)
      → value b ≤ value a
      → AreWords (f (bigint_sub3 a b))
        × (length (f (bigint_sub3 a b)) ≡ n + n)
        × (value a * value b + value b * value a + value (f (bigint_sub3 a b))
            ≡ value a * value a + value b * value b)
  square_crossing a b (ha, na) (hb, nb) le =
      let (x, hx, nx) = subtracted n a b ha hb na nb le in
      let (product, words, size) = squares (bigint_sub3 a b) hx nx in
      (
        words,
        omega (arith, size, nx),
        rw (x, product)
            (same_signs (value b) (value b) (value (bigint_sub3 a b)) (value (bigint_sub3 a b))),
      )

  square-Signed :
      (o : Ordering) (a b : List ℕ)
      → AreWords a × (length a ≡ n)
      → AreWords b × (length b ≡ n)
      → Decides o (value a) (value b)
      → Signed
          (is_zero o)
          (elim o as (λ r. List ℕ) [
            | Ordering.eq ↦ replicate (n + n) 0
            | Ordering.lt ↦ f (bigint_sub3 b a)
            | Ordering.gt ↦ f (bigint_sub3 a b)
          ])
          (n + n)
          (value a * value a + value b * value b)
          (value a * value b + value b * value a)
  unfolding is_zero
  square-Signed Ordering.eq a b ha hb d = (
    zeros-AreWords (n + n),
    length-replicate (n + n) 0,
    omega (arith, equal_left (value a) (value b) (value a) (value b) d, value-zeros (n + n)),
  )
  square-Signed Ordering.lt a b ha hb d =
      let (words, size, sum) = square_crossing b a hb ha (omega arith) in
      (words, size, omega (arith, sum))
  square-Signed Ordering.gt a b ha hb d =
      let (words, size, sum) = square_crossing a b ha hb (omega arith) in
      (words, size, omega (arith, sum))

  sqr_at_lem :
      (x : List ℕ) → AreWords x → length x ≡ n + n → 1 ≤ n → IsProduct x x (sqr_at f n (n + n) x)
  unfolding sqr_at
  sqr_at_lem x hx nx some =
      let (parts, low, high) = halves_lem n x hx nx in
      let fits = product-lt x x hx hx in
      let both = ap₂ (λ a b. a * b) parts parts in
      let cmp = bigint_cmp (take n x) (drop n x) in
      let signed =
        square-Signed cmp (take n x) (drop n x) low high
          (bigint_cmp-Decides (take n x) (drop n x) low.0 high.0) in
      let size : length x + length x ≡ n + n + (n + n) = omega arith in
      let (product, words, count) =
        whole n (take n x) (drop n x) (take n x) (drop n x) _ _ low high low high
          (squares (take n x) low.0 low.1) (squares (drop n x) high.0 high.1) (is_zero cmp) _ some
          (omega (arith, both, fits, ap (λ k. raised k 1) size)) signed in
      (product ∙ sym both, words, count ∙ sym size)

  -- The branch by halves squares where the function squares the halves.
  pub sqr_halves_lem : 1 ≤ n → Squares (sqr_halves f) (n + n)
  unfolding sqr_halves
  sqr_halves_lem some x hx nx =
      let half : length x / 2 ≡ n = omega arith in
      subst (IsProduct x x) (sym (ap₂ (λ a b. sqr_at f a b x) half nx)) (sqr_at_lem x hx nx some)
