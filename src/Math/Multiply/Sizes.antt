-- ===== src/Math/Multiply/Sizes.antt =====
-- math/bigint/mp_karat.cpp: what `karatsuba_size` returns.
use php_botan.Base.{
  ℕ, zero, suc, ◌+◌, ◌-◌, ◌*◌, ◌%◌, ◌≤◌, ◌≡◌, ◌⊎◌, refl, arith, Bool, true, false, not, ◌&&◌, ◌||◌,
  ltb, leb, ◌==◌, if◌then◌else◌, inl, inr,
}
use php_botan.Math.Multiply.{mul_size_loop, karatsuba_mul_size, sqr_size_loop, karatsuba_sqr_size}

-- A size for both factors: even, and no smaller than the words that matter.
abbrev pub FitsFactors : ℕ → ℕ → ℕ → ℕ → ℕ → Type 0
FitsFactors n x_size x_sw y_size y_sw =
    (n % 2 ≡ 0) × ((x_sw ≤ n) × (n ≤ x_size)) × ((y_sw ≤ n) × (n ≤ y_size))

pub by_if :
    {A : Type 0} (P : A → Type 0) (b : Bool) (s t : A)
    → (b ≡ true → P s)
    → (b ≡ false → P t)
    → P (if b then s else t)
by_if P true s t h g = h refl
by_if P false s t h g = g refl

-- No size, or one that fits the product too.
abbrev pub Chosen : ℕ → ℕ → ℕ → ℕ → ℕ → ℕ → Type 0
Chosen z_size x_size x_sw y_size y_sw n =
    (n ≡ 0) ⊎ (FitsFactors n x_size x_sw y_size y_sw × (2 * n ≤ z_size))

mul_size_loop_lem :
    (z_size x_size x_sw y_size y_sw j rounds : ℕ)
    → Chosen z_size x_size x_sw y_size y_sw (mul_size_loop z_size x_size x_sw y_size y_sw j rounds)
unfolding mul_size_loop
mul_size_loop_lem z_size x_size x_sw y_size y_sw j zero = inl refl
mul_size_loop_lem z_size x_size x_sw y_size y_sw j (suc rounds) =
    let rest = mul_size_loop_lem z_size x_size x_sw y_size y_sw (j + 1) rounds in
    let P = Chosen z_size x_size x_sw y_size y_sw in
    by_if P (not (j % 2 == 0)) _ _ (λ odd. rest)
      (λ even.
        by_if P (ltb z_size (2 * j)) _ _ (λ large. inl refl)
          (λ small.
            by_if P ((leb x_sw j && leb j x_size) && (leb y_sw j && leb j y_size)) _ _
              (λ fits.
                by_if P
                  ((j % 4 == 2 && leb (j + 2) x_size)
                    && (leb (j + 2) y_size && leb (2 * (j + 2)) z_size))
                  _ _ (λ more. inr (ground arith)) (λ same. inr (ground arith)))
              (λ not_yet. rest)))

-- Where the product has room for both arrays, the size that karatsuba_size chooses for a product is
-- 0, or it is even, covers the words that matter of both arrays, reads within them, and writes
-- within the product.
pub karatsuba_mul_size_lem :
    (z_size x_size x_sw y_size y_sw : ℕ)
    → x_size + y_size ≤ z_size
    → Chosen z_size x_size x_sw y_size y_sw (karatsuba_mul_size z_size x_size x_sw y_size y_sw)
unfolding karatsuba_mul_size
karatsuba_mul_size_lem z_size x_size x_sw y_size y_sw room =
    let P = Chosen z_size x_size x_sw y_size y_sw in
    let start = if ltb y_sw x_sw then x_sw else y_sw in
    let end = if ltb x_size y_size then x_size else y_size in
    by_if P ((ltb x_size x_sw || ltb y_size x_sw) || (ltb x_size y_sw || ltb y_size y_sw)) _ _
      (λ outside. inl refl)
      (λ inside.
        by_if P
          ((x_size == x_sw && not (x_size % 2 == 0)) || (y_size == y_sw && not (y_size % 2 == 0))) _
          _ (λ odd. inl refl)
          (λ even.
            by_if P (start == end) _ _
              (λ same.
                by_if P (not (start % 2 == 0)) _ _ (λ odd. inl refl) (λ good. inr (ground arith)))
              (λ range. mul_size_loop_lem z_size x_size x_sw y_size y_sw start (suc end - start))))

abbrev pub ChosenSquare : ℕ → ℕ → ℕ → ℕ → Type 0
ChosenSquare z_size x_size x_sw n =
    (n ≡ 0) ⊎ ((n % 2 ≡ 0) × (x_sw ≤ n) × (n ≤ x_size) × (2 * n ≤ z_size))

sqr_size_loop_lem :
    (z_size x_size x_sw j rounds : ℕ)
    → x_sw ≤ j
    → j + rounds ≤ suc x_size
    → ChosenSquare z_size x_size x_sw (sqr_size_loop z_size x_size j rounds)
unfolding sqr_size_loop
sqr_size_loop_lem z_size x_size x_sw j zero h g = inl refl
sqr_size_loop_lem z_size x_size x_sw j (suc rounds) h g =
    let rest = sqr_size_loop_lem z_size x_size x_sw (j + 1) rounds (omega arith) (omega arith) in
    let P = ChosenSquare z_size x_size x_sw in
    by_if P (not (j % 2 == 0)) _ _ (λ odd. rest)
      (λ even.
        by_if P (ltb z_size (2 * j)) _ _ (λ large. inl refl)
          (λ small.
            by_if P (j % 4 == 2 && (leb (j + 2) x_size && leb (2 * (j + 2)) z_size)) _ _
              (λ more. inr (ground arith)) (λ same. inr (ground arith))))

-- The size that is chosen for a square is even, has room for the words that matter, and reads and
-- writes within the arrays, where the square has room for the factor twice.
pub karatsuba_sqr_size_lem :
    (z_size x_size x_sw : ℕ)
    → x_sw ≤ x_size
    → 2 * x_size ≤ z_size
    → ChosenSquare z_size x_size x_sw (karatsuba_sqr_size z_size x_size x_sw)
unfolding karatsuba_sqr_size
karatsuba_sqr_size_lem z_size x_size x_sw h room =
    let P = ChosenSquare z_size x_size x_sw in
    by_if P (x_sw == x_size) _ _
      (λ same. by_if P (not (x_sw % 2 == 0)) _ _ (λ odd. inl refl) (λ good. inr (ground arith)))
      (λ range.
        sqr_size_loop_lem z_size x_size x_sw x_sw (suc x_size - x_sw) (omega arith) (omega arith))
