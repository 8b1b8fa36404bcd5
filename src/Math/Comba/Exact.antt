-- ===== src/Math/Comba/Exact.antt =====
-- The functions of math/bigint/mp_comba.cpp compute products and squares.
use php_botan.Base.{
  ℕ, suc, ◌+◌, ◌*◌, ◌^◌, ◌<◌, ◌≤◌, ◌≡◌, refl, ap, ◌∙◌, arith, Bool, true, ◌&&◌, ◌==◌, ==_iff, leb,
  List, [], ◌∷◌, ◌++◌, length, All, map,
}
use native.Mathlib.Nat.{mul-lt-mul_of_pos_right, mul-le-mul}
use php_botan.Math.Value.{
  AreWords, value, raised, raised-raised, raised-times, nothing_left, value-lt,
}
use php_botan.Math.Comba.Columns.{Term, once, twice, run_columns, products}
use php_botan.Math.Comba.Value.{term_amount, run_columns_lem}
use php_botan.Math.Comba.Cover.{both_true, columns_pairs, on_diagonals, covers, lines}
use php_botan.Math.Comba.Weights.{FromPairs, columns_amount-value}
use php_botan.Math.Comba.Products.{mul4, mul6, mul8}
use php_botan.Math.Comba.Products16.{mul16_low, mul16_high}
use php_botan.Math.Comba.Squares.{sqr4, sqr6, sqr8, sqr16_low, sqr16_high}
use php_botan.Math.Comba.{
  bigint_comba_mul4, bigint_comba_mul6, bigint_comba_mul8, bigint_comba_mul16, bigint_comba_sqr4,
  bigint_comba_sqr6, bigint_comba_sqr8, bigint_comba_sqr16,
}

abbrev short_columns : List (List Term) → Bool
short_columns [] = true
short_columns (c ∷ cs) = leb (length c) 16 && short_columns cs

short_columns-All :
    (cs : List (List Term)) → short_columns cs ≡ true → All (λ c. length c ≤ 2 ^ 30) cs
short_columns-All [] h = tt
short_columns-All (c ∷ cs) h =
    let (here, rest) = both_true (leb (length c) 16) (short_columns cs) h in
    let most : length c ≤ 16 = ground (arith, here) in (omega arith, short_columns-All cs rest)

-- A table of columns for arrays of `n` words.
abbrev is_table : ℕ → List (List Term) → Bool
is_table n cs =
    (on_diagonals 0 cs && covers (lines 0 n n) (columns_pairs cs))
    && (short_columns cs && suc (length cs) == n + n)

-- A product stands below the base to the number of its words.
pub product-lt :
    (x y : List ℕ) → AreWords x → AreWords y → value x * value y < raised (length x + length y) 1
product-lt x y h g =
    let a = value-lt x h in
    let b = value-lt y g in
    let most : value x * value y ≤ value x * raised (length y) 1 =
      mul-le-mul (let e : value x ≤ value x = omega arith in e) (omega arith) in
    let some : 0 < raised (length y) 1 = omega arith in
    let below : value x * raised (length y) 1 < raised (length x) 1 * raised (length y) 1 =
      mul-lt-mul_of_pos_right a some in
    omega (
      arith,
      most,
      below,
      raised-times (length x) (raised (length y) 1),
      raised-raised (length x) (length y) 1,
    )

-- A table for arrays of `n` words computes the product of arrays of that size.
module _ (n : ℕ) (x y : List ℕ) (hx : AreWords x) (hy : AreWords y) (nx : length x ≡ n)
    (ny : length y ≡ n) where
  columns_lem :
      (cs : List (List Term))
      → is_table n cs ≡ true
      → All (All (FromPairs x y)) cs
      → (value (run_columns x y (0, 0, 0) cs) ≡ value x * value y)
        × AreWords (run_columns x y (0, 0, 0) cs)
        × (length (run_columns x y (0, 0, 0) cs) ≡ n + n)
  columns_lem cs table pairs =
      let (places, bounds) =
        both_true (on_diagonals 0 cs && covers (lines 0 n n) (columns_pairs cs))
          (short_columns cs && suc (length cs) == n + n) table in
      let (diagonals, full) =
        both_true (on_diagonals 0 cs) (covers (lines 0 n n) (columns_pairs cs)) places in
      let (short, count) = both_true (short_columns cs) (suc (length cs) == n + n) bounds in
      let size = (==_iff (suc (length cs)) (n + n)).0 count in
      let (left, sum, words, counted) =
        run_columns_lem x y hx hy (0, 0, 0) cs (omega arith, omega arith, omega arith) (omega arith)
          (short_columns-All cs short) in
      let exact = columns_amount-value x y cs diagonals (rw (nx, ny) full) pairs in
      let fits = product-lt x y hx hy in
      (
        nothing_left (suc (length cs)) left (value x * value y)
            (value (run_columns x y (0, 0, 0) cs)) (sum ∙ omega (arith, exact))
            (omega (
              arith,
              fits,
              ap (λ k. raised k 1)
                  (let e : length x + length y ≡ suc (length cs) = omega (arith, size, nx, ny) in
                    e),
            )),
        words,
        omega (arith, counted, size),
      )

once-FromPairs : (x y : List ℕ) (i j : ℕ) → FromPairs x y (once i j)
unfolding term_amount
once-FromPairs x y i j = omega arith

products-FromPairs :
    (x y : List ℕ) (cs : List (List (ℕ × ℕ))) → All (All (FromPairs x y)) (products cs)
products-FromPairs x y [] = tt
products-FromPairs x y (c ∷ cs) = (column c, products-FromPairs x y cs)
  where
    column : (c : List (ℕ × ℕ)) → All (FromPairs x y) (map (λ (p : ℕ × ℕ). once p.0 p.1) c)
    column [] = tt
    column ((i, j) ∷ ps) = (once-FromPairs x y i j, column ps)

square-FromPairs : (x : List ℕ) (t : Term) → FromPairs x x t
unfolding term_amount
square-FromPairs x (once i j) = omega arith
square-FromPairs x (twice i j) = grind arith

squares-FromPairs : (x : List ℕ) (cs : List (List Term)) → All (All (FromPairs x x)) cs
squares-FromPairs x [] = tt
squares-FromPairs x (c ∷ cs) = (column c, squares-FromPairs x cs)
  where
    column : (c : List Term) → All (FromPairs x x) c
    column [] = tt
    column (t ∷ ts) = (square-FromPairs x t, column ts)

-- The product of two arrays of `n` words that a function returns.
abbrev pub IsProduct : List ℕ → List ℕ → List ℕ → Type 0
IsProduct x y z = (value z ≡ value x * value y) × AreWords z × (length z ≡ length x + length y)

-- For arrays of 4 words, bigint_comba_mul4 computes the product, in 8 words.
pub bigint_comba_mul4_lem :
    (x y : List ℕ)
    → AreWords x
    → AreWords y
    → length x ≡ 4
    → length y ≡ 4
    → IsProduct x y (bigint_comba_mul4 x y)
unfolding bigint_comba_mul4
bigint_comba_mul4_lem x y hx hy nx ny =
    let (product, words, size) =
      columns_lem 4 x y hx hy nx ny (products mul4) refl (products-FromPairs x y mul4) in
    (product, words, omega (arith, size, nx, ny))

-- For an array of 4 words, bigint_comba_sqr4 computes the square, in 8 words.
pub bigint_comba_sqr4_lem :
    (x : List ℕ) → AreWords x → length x ≡ 4 → IsProduct x x (bigint_comba_sqr4 x)
unfolding bigint_comba_sqr4
bigint_comba_sqr4_lem x hx nx =
    let (product, words, size) =
      columns_lem 4 x x hx hx nx nx sqr4 refl (squares-FromPairs x sqr4) in
    (product, words, omega (arith, size, nx))

-- For arrays of 6 words, bigint_comba_mul6 computes the product, in 12 words.
pub bigint_comba_mul6_lem :
    (x y : List ℕ)
    → AreWords x
    → AreWords y
    → length x ≡ 6
    → length y ≡ 6
    → IsProduct x y (bigint_comba_mul6 x y)
unfolding bigint_comba_mul6
bigint_comba_mul6_lem x y hx hy nx ny =
    let (product, words, size) =
      columns_lem 6 x y hx hy nx ny (products mul6) refl (products-FromPairs x y mul6) in
    (product, words, omega (arith, size, nx, ny))

-- For an array of 6 words, bigint_comba_sqr6 computes the square, in 12 words.
pub bigint_comba_sqr6_lem :
    (x : List ℕ) → AreWords x → length x ≡ 6 → IsProduct x x (bigint_comba_sqr6 x)
unfolding bigint_comba_sqr6
bigint_comba_sqr6_lem x hx nx =
    let (product, words, size) =
      columns_lem 6 x x hx hx nx nx sqr6 refl (squares-FromPairs x sqr6) in
    (product, words, omega (arith, size, nx))

-- For arrays of 8 words, bigint_comba_mul8 computes the product, in 16 words.
pub bigint_comba_mul8_lem :
    (x y : List ℕ)
    → AreWords x
    → AreWords y
    → length x ≡ 8
    → length y ≡ 8
    → IsProduct x y (bigint_comba_mul8 x y)
unfolding bigint_comba_mul8
bigint_comba_mul8_lem x y hx hy nx ny =
    let (product, words, size) =
      columns_lem 8 x y hx hy nx ny (products mul8) refl (products-FromPairs x y mul8) in
    (product, words, omega (arith, size, nx, ny))

-- For an array of 8 words, bigint_comba_sqr8 computes the square, in 16 words.
pub bigint_comba_sqr8_lem :
    (x : List ℕ) → AreWords x → length x ≡ 8 → IsProduct x x (bigint_comba_sqr8 x)
unfolding bigint_comba_sqr8
bigint_comba_sqr8_lem x hx nx =
    let (product, words, size) =
      columns_lem 8 x x hx hx nx nx sqr8 refl (squares-FromPairs x sqr8) in
    (product, words, omega (arith, size, nx))

-- For arrays of 16 words, bigint_comba_mul16 computes the product, in 32 words.
pub bigint_comba_mul16_lem :
    (x y : List ℕ)
    → AreWords x
    → AreWords y
    → length x ≡ 16
    → length y ≡ 16
    → IsProduct x y (bigint_comba_mul16 x y)
unfolding bigint_comba_mul16
bigint_comba_mul16_lem x y hx hy nx ny =
    let (product, words, size) =
      columns_lem 16 x y hx hy nx ny (products (mul16_low ++ mul16_high)) refl
        (products-FromPairs x y (mul16_low ++ mul16_high)) in
    (product, words, omega (arith, size, nx, ny))

-- For an array of 16 words, bigint_comba_sqr16 computes the square, in 32 words.
pub bigint_comba_sqr16_lem :
    (x : List ℕ) → AreWords x → length x ≡ 16 → IsProduct x x (bigint_comba_sqr16 x)
unfolding bigint_comba_sqr16
bigint_comba_sqr16_lem x hx nx =
    let (product, words, size) =
      columns_lem 16 x x hx hx nx nx (sqr16_low ++ sqr16_high) refl
        (squares-FromPairs x (sqr16_low ++ sqr16_high)) in
    (product, words, omega (arith, size, nx))
