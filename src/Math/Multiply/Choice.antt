-- ===== src/Math/Multiply/Choice.antt =====
-- math/bigint/mp_karat.cpp: which size `karatsuba_size` picks for a product.
use php_botan.Base.{
  ℕ, zero, suc, ◌+◌, ◌-◌, ◌*◌, ◌%◌, ◌≤◌, ◌<◌, ◌≡◌, ◌⊎◌, refl, arith, not, ◌&&◌, ◌||◌, ltb, leb,
  ◌==◌, if◌then◌else◌, inl, inr,
}
use php_botan.Math.Multiply.{mul_size_loop, karatsuba_mul_size}
use php_botan.Math.Multiply.Sizes.{by_if, FitsFactors}

module _ (z_size x_size x_sw y_size y_sw m : ℕ) where
  -- What the choice of `n` says where `m` is a size for both factors.
  abbrev pub Picks : ℕ → Type 0
  Picks n =
      ((n ≡ 0) × (z_size < 2 * m))
      ⊎ ((0 < n)
          × FitsFactors n x_size x_sw y_size y_sw
          × ((2 * n ≤ z_size) ⊎ (((n ≡ x_sw) ⊎ (n ≡ y_sw)) × ((n ≡ x_size) ⊎ (n ≡ y_size))))
          × ((n ≤ m) ⊎ ((n % 4 ≡ 0) × (n ≤ m + 2))))

  mul_size_loop-Picks :
      (j rounds : ℕ)
      → 0 < j
      → x_sw ≤ j
      → y_sw ≤ j
      → FitsFactors m x_size x_sw y_size y_sw
      → j ≤ m
      → m < j + rounds
      → Picks (mul_size_loop z_size x_size x_sw y_size y_sw j rounds)
  unfolding mul_size_loop
  mul_size_loop-Picks j zero pos hx hy fits from to = absurd (omega arith)
  mul_size_loop-Picks j (suc rounds) pos hx hy fits from to =
      let (even, (_, mx), (_, my)) = fits in
      by_if Picks (not (j % 2 == 0)) _ _
        (λ odd.
          mul_size_loop-Picks (j + 1) rounds (omega arith) (omega arith) (omega arith) fits
            (ground arith) (omega arith))
        (λ j_even.
          by_if Picks (ltb z_size (2 * j)) _ _ (λ large. inl (refl, ground arith))
            (λ small.
              by_if Picks ((leb x_sw j && leb j x_size) && (leb y_sw j && leb j y_size)) _ _
                (λ inside.
                  by_if Picks
                    ((j % 4 == 2 && leb (j + 2) x_size)
                      && (leb (j + 2) y_size && leb (2 * (j + 2)) z_size))
                    _ _
                    (λ more.
                      inr (omega arith, ground arith, inl (ground arith), inr (ground arith)))
                    (λ same. inr (pos, ground arith, inl (ground arith), inl from)))
                (λ outside. absurd (ground arith))))

  -- If a word of x matters and m is an even size within both factors that covers what matters of
  -- them, then karatsuba_size either returns 0, and twice m exceeds the product, or it returns a
  -- positive size of that kind, which is at most m, or at most m + 2 and a multiple of 4, and which
  -- fits into the product twice, except where it is all that matters of a factor and also the size of
  -- a factor, which the code does not compare with the product.
  pub karatsuba_mul_size-Picks :
      0 < x_sw
      → FitsFactors m x_size x_sw y_size y_sw
      → Picks (karatsuba_mul_size z_size x_size x_sw y_size y_sw)
  unfolding karatsuba_mul_size
  karatsuba_mul_size-Picks pos fits =
      let (even, (xm, mx), (ym, my)) = fits in
      let start = if ltb y_sw x_sw then x_sw else y_sw in
      let end = if ltb x_size y_size then x_size else y_size in
      by_if Picks ((ltb x_size x_sw || ltb y_size x_sw) || (ltb x_size y_sw || ltb y_size y_sw)) _ _
        (λ outside. absurd (ground arith))
        (λ inside.
          by_if Picks
            ((x_size == x_sw && not (x_size % 2 == 0)) || (y_size == y_sw && not (y_size % 2 == 0)))
            _ _ (λ odd. absurd (ground arith))
            (λ even_sizes.
              by_if Picks (start == end) _ _
                (λ one.
                  by_if Picks (not (start % 2 == 0)) _ _ (λ odd. absurd (ground arith))
                    (λ good.
                      inr (ground arith, ground arith, inr (ground arith), inl (ground arith))))
                (λ range.
                  mul_size_loop-Picks start (suc end - start) (ground arith) (ground arith)
                    (ground arith) fits (ground arith) (ground arith))))
