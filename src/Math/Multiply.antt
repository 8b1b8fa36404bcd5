-- ===== src/Math/Multiply.antt =====
-- math/bigint/mp_karat.cpp: the choice of a method for products and squares. The array z is the list of
-- its words, and its size is its length, as for x and y; x_sw and y_sw count their words that matter.
-- Sizes stay far below 2^31, so that sums of them do not wrap.
pub mod Sizes
pub mod Choice
pub mod Exact
pub mod Square
use php_botan.Base.{
  ℕ, zero, suc, ◌+◌, ◌-◌, ◌*◌, ◌%◌, List, ◌++◌, take, drop, length, Bool, true, false, not, ◌&&◌,
  ◌||◌, ltb, leb, ◌==◌, if◌then◌else◌,
}
use php_botan.Math.Mp.{bigint_linmul3, bigint_simple_mul, bigint_simple_sqr}
use php_botan.Math.Comba.{
  bigint_comba_mul4, bigint_comba_mul6, bigint_comba_mul8, bigint_comba_mul16, bigint_comba_sqr4,
  bigint_comba_sqr6, bigint_comba_sqr8, bigint_comba_sqr16,
}
use php_botan.Math.Comba.Columns.{word_at}
use php_botan.Math.Karatsuba.{
  karat_mul_threshold, karat_sqr_threshold, karatsuba_mul, karatsuba_sqr,
}

-- The last `rounds` rounds of the loop over `j`, up to `end`.
unfoldable pub mul_size_loop : ℕ → ℕ → ℕ → ℕ → ℕ → ℕ → ℕ → ℕ
mul_size_loop z_size x_size x_sw y_size y_sw j zero = 0
mul_size_loop z_size x_size x_sw y_size y_sw j (suc rounds) =
    let next = mul_size_loop z_size x_size x_sw y_size y_sw (j + 1) rounds in
    if not (j % 2 == 0)
    then next
    else if ltb z_size (2 * j)
    then 0
    else if (leb x_sw j && leb j x_size) && (leb y_sw j && leb j y_size)
    then (if (j % 4 == 2 && leb (j + 2) x_size) && (leb (j + 2) y_size && leb (2 * (j + 2)) z_size)
        then j + 2
        else j)
    else next

-- `karatsuba_size` of five arguments.
unfoldable pub karatsuba_mul_size : ℕ → ℕ → ℕ → ℕ → ℕ → ℕ
unfolding mul_size_loop
karatsuba_mul_size z_size x_size x_sw y_size y_sw =
    let start = if ltb y_sw x_sw then x_sw else y_sw in
    let end = if ltb x_size y_size then x_size else y_size in
    if (ltb x_size x_sw || ltb y_size x_sw) || (ltb x_size y_sw || ltb y_size y_sw)
    then 0
    else if (x_size == x_sw && not (x_size % 2 == 0)) || (y_size == y_sw && not (y_size % 2 == 0))
    then 0
    else if start == end
    then (if not (start % 2 == 0) then 0 else start)
    else mul_size_loop z_size x_size x_sw y_size y_sw start (suc end - start)

unfoldable pub sqr_size_loop : ℕ → ℕ → ℕ → ℕ → ℕ
sqr_size_loop z_size x_size j zero = 0
sqr_size_loop z_size x_size j (suc rounds) =
    let next = sqr_size_loop z_size x_size (j + 1) rounds in
    if not (j % 2 == 0)
    then next
    else if ltb z_size (2 * j)
    then 0
    else if j % 4 == 2 && (leb (j + 2) x_size && leb (2 * (j + 2)) z_size)
    then j + 2
    else j

-- `karatsuba_size` of three arguments.
unfoldable pub karatsuba_sqr_size : ℕ → ℕ → ℕ → ℕ
unfolding sqr_size_loop
karatsuba_sqr_size z_size x_size x_sw =
    if x_sw == x_size
    then (if not (x_sw % 2 == 0) then 0 else x_sw)
    else sqr_size_loop z_size x_size x_sw (suc x_size - x_sw)

-- The words that a function writes to the front of `z`.
unfoldable pub stored : List ℕ → List ℕ → List ℕ
stored z words = words ++ drop (length words) z

-- The condition of a comba product of `n` words.
abbrev pub comba_fits : ℕ → List ℕ → List ℕ → ℕ → List ℕ → ℕ → Bool
comba_fits n z x x_sw y y_sw =
    (leb x_sw n && leb n (length x)) && ((leb y_sw n && leb n (length y)) && leb (2 * n) (length z))

unfoldable pub mul_words : List ℕ → List ℕ → ℕ → List ℕ → ℕ → List ℕ
mul_words z x x_sw y y_sw =
    let n = karatsuba_mul_size (length z) (length x) x_sw (length y) y_sw in
    if x_sw == 1
    then bigint_linmul3 (take y_sw y) (word_at x 0)
    else if y_sw == 1
    then bigint_linmul3 (take x_sw x) (word_at y 0)
    else if comba_fits 4 z x x_sw y y_sw
    then bigint_comba_mul4 (take 4 x) (take 4 y)
    else if comba_fits 6 z x x_sw y y_sw
    then bigint_comba_mul6 (take 6 x) (take 6 y)
    else if comba_fits 8 z x x_sw y y_sw
    then bigint_comba_mul8 (take 8 x) (take 8 y)
    else if comba_fits 16 z x x_sw y y_sw
    then bigint_comba_mul16 (take 16 x) (take 16 y)
    else if ltb x_sw karat_mul_threshold || ltb y_sw karat_mul_threshold
    then bigint_simple_mul (take x_sw x) (take y_sw y)
    else if n == 0
    then bigint_simple_mul (take x_sw x) (take y_sw y)
    else karatsuba_mul (suc n) (take n x) (take n y)

unfoldable pub bigint_mul : List ℕ → List ℕ → ℕ → List ℕ → ℕ → List ℕ
unfolding mul_words stored
bigint_mul z x x_sw y y_sw = stored z (mul_words z x x_sw y y_sw)

abbrev pub comba_fits_sqr : ℕ → List ℕ → List ℕ → ℕ → Bool
comba_fits_sqr n z x x_sw = leb x_sw n && (leb n (length x) && leb (2 * n) (length z))

unfoldable pub sqr_words : List ℕ → List ℕ → ℕ → List ℕ
sqr_words z x x_sw =
    let n = karatsuba_sqr_size (length z) (length x) x_sw in
    if x_sw == 1
    then bigint_linmul3 (take x_sw x) (word_at x 0)
    else if comba_fits_sqr 4 z x x_sw
    then bigint_comba_sqr4 (take 4 x)
    else if comba_fits_sqr 6 z x x_sw
    then bigint_comba_sqr6 (take 6 x)
    else if comba_fits_sqr 8 z x x_sw
    then bigint_comba_sqr8 (take 8 x)
    else if comba_fits_sqr 16 z x x_sw
    then bigint_comba_sqr16 (take 16 x)
    else if ltb (length x) karat_sqr_threshold
    then bigint_simple_sqr (take x_sw x)
    else if n == 0
    then bigint_simple_sqr (take x_sw x)
    else karatsuba_sqr (suc n) (take n x)

unfoldable pub bigint_sqr : List ℕ → List ℕ → ℕ → List ℕ
unfolding sqr_words stored
bigint_sqr z x x_sw = stored z (sqr_words z x x_sw)
