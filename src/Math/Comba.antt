-- ===== src/Math/Comba.antt =====
-- math/bigint/mp_comba.cpp: products and squares of arrays of 4, 6, 8 and 16 words, written out column
-- by column.
pub mod Columns
pub mod Products
pub mod Products16
pub mod Squares
pub mod Value
pub mod Cover
pub mod Weights
pub mod Exact
use php_botan.Base.{ℕ, List, [], ◌∷◌, ◌++◌}
use php_botan.Math.Comba.Columns.{run_columns, products}
use php_botan.Math.Comba.Products.{mul4, mul6, mul8}
use php_botan.Math.Comba.Products16.{mul16_low, mul16_high}
use php_botan.Math.Comba.Squares.{sqr4, sqr6, sqr8, sqr16_low, sqr16_high}

unfoldable pub bigint_comba_sqr4 : List ℕ → List ℕ
unfolding run_columns
bigint_comba_sqr4 x = run_columns x x (0, 0, 0) sqr4

unfoldable pub bigint_comba_mul4 : List ℕ → List ℕ → List ℕ
unfolding run_columns
bigint_comba_mul4 x y = run_columns x y (0, 0, 0) (products mul4)

unfoldable pub bigint_comba_sqr6 : List ℕ → List ℕ
unfolding run_columns
bigint_comba_sqr6 x = run_columns x x (0, 0, 0) sqr6

unfoldable pub bigint_comba_mul6 : List ℕ → List ℕ → List ℕ
unfolding run_columns
bigint_comba_mul6 x y = run_columns x y (0, 0, 0) (products mul6)

unfoldable pub bigint_comba_sqr8 : List ℕ → List ℕ
unfolding run_columns
bigint_comba_sqr8 x = run_columns x x (0, 0, 0) sqr8

unfoldable pub bigint_comba_mul8 : List ℕ → List ℕ → List ℕ
unfolding run_columns
bigint_comba_mul8 x y = run_columns x y (0, 0, 0) (products mul8)

unfoldable pub bigint_comba_sqr16 : List ℕ → List ℕ
unfolding run_columns
bigint_comba_sqr16 x = run_columns x x (0, 0, 0) (sqr16_low ++ sqr16_high)

unfoldable pub bigint_comba_mul16 : List ℕ → List ℕ → List ℕ
unfolding run_columns
bigint_comba_mul16 x y = run_columns x y (0, 0, 0) (products (mul16_low ++ mul16_high))
