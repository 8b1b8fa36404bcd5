-- ===== src/Math/Multiply/Square.antt =====
-- math/bigint/mp_karat.cpp: whatever the method, the square is the square.
use php_botan.Base.{
  ℕ, suc, ◌*◌, ◌≤◌, ◌≡◌, ap₂, ◌∙◌, arith, true, false, ltb, ◌==◌, ==_iff, inl, inr, List, length,
  take, replicate, length-take, length-replicate, All-take,
}
use mathlib.Core.Path.{subst}
use php_botan.Base.Words.{IsU32}
use php_botan.Math.Value.{AreWords, value}
use php_botan.Math.Mp.{bigint_linmul3, bigint_simple_sqr}
use php_botan.Math.Mp.Mul.{bigint_simple_sqr_lem, bigint_linmul3_lem}
use php_botan.Math.Mp.Sizes.{length-bigint_simple_sqr, length-bigint_linmul3}
use php_botan.Math.Comba.Columns.{word_at}
use php_botan.Math.Comba.Value.{word_at-IsU32}
use php_botan.Math.Comba.{
  bigint_comba_sqr4, bigint_comba_sqr6, bigint_comba_sqr8, bigint_comba_sqr16,
}
use php_botan.Math.Comba.Exact.{
  bigint_comba_sqr4_lem, bigint_comba_sqr6_lem, bigint_comba_sqr8_lem, bigint_comba_sqr16_lem,
}
use php_botan.Math.Karatsuba.{karat_sqr_threshold, karatsuba_sqr}
use php_botan.Math.Karatsuba.SqrHalves.{Squares}
use php_botan.Math.Karatsuba.Exact.{karatsuba_sqr-Squares}
use php_botan.Math.Multiply.{comba_fits_sqr, sqr_words, bigint_sqr, karatsuba_sqr_size}
use php_botan.Math.Multiply.Sizes.{by_if, ChosenSquare, karatsuba_sqr_size_lem}
use php_botan.Math.Multiply.Exact.{Matter, GivesProduct, value_longer, single, stored_lem}

module _ (x : List ℕ) (x_sw k : ℕ) (hx : AreWords x) (mx : Matter x x_sw)
    (room : 2 * length x ≤ k) where
  by_size :
      (f : List ℕ → List ℕ) (n : ℕ)
      → Squares f n
      → (x_sw ≤ n) × (n ≤ length x)
      → GivesProduct k x x (f (take n x))
  by_size f n squares (a, b) =
      let same = value_longer x x_sw n mx a b in
      let (square, words, size) =
        squares (take n x) (All-take IsU32 n x hx) (omega (arith, length-take n x)) in
      (square ∙ ap₂ (λ p q. p * q) same same, words, omega (arith, size, length-take n x))

  simple : GivesProduct k x x (bigint_simple_sqr (take x_sw x))
  simple =
      let (square, words) = bigint_simple_sqr_lem (take x_sw x) (All-take IsU32 x_sw x hx) in
      (
        square ∙ ap₂ (λ p q. p * q) mx.1 mx.1,
        words,
        omega (arith, length-bigint_simple_sqr (take x_sw x), length-take x_sw x, mx.0),
      )

  one_word : x_sw ≡ 1 → GivesProduct k x x (bigint_linmul3 (take x_sw x) (word_at x 0))
  one_word one =
      let (product, words) =
        bigint_linmul3_lem (take x_sw x) (word_at x 0) (All-take IsU32 x_sw x hx)
          (word_at-IsU32 x 0 hx) in
      (
        product ∙ ap₂ (λ p q. p * q) mx.1 (single x x_sw mx one),
        words,
        omega (arith, length-bigint_linmul3 (take x_sw x) (word_at x 0), length-take x_sw x, mx.0),
      )

  fits : (n : ℕ) (z : List ℕ) → comba_fits_sqr n z x x_sw ≡ true → (x_sw ≤ n) × (n ≤ length x)
  fits n z e = ground arith

  comba :
      (f : List ℕ → List ℕ) (n : ℕ) (z : List ℕ)
      → Squares f n
      → comba_fits_sqr n z x x_sw ≡ true
      → GivesProduct k x x (f (take n x))
  comba f n z squares e = by_size f n squares (fits n z e)

  by_halves :
      (n : ℕ)
      → ChosenSquare k (length x) x_sw n
      → (n == 0) ≡ false
      → GivesProduct k x x (karatsuba_sqr (suc n) (take n x))
  by_halves n (inl none) e = absurd (ground arith)
  by_halves n (inr (even, a, b, room)) e =
      by_size (karatsuba_sqr (suc n)) n (karatsuba_sqr-Squares (suc n) n (omega arith)) (a, b)

  sqr_words_lem : (z : List ℕ) → length z ≡ k → GivesProduct k x x (sqr_words z x x_sw)
  unfolding sqr_words
  sqr_words_lem z nz =
      let P = GivesProduct k x x in
      let n = karatsuba_sqr_size (length z) (length x) x_sw in
      let chosen : ChosenSquare k (length x) x_sw n =
        subst (λ m. ChosenSquare m (length x) x_sw n) nz
          (karatsuba_sqr_size_lem (length z) (length x) x_sw mx.0 (omega (arith, nz, room))) in
      by_if P (x_sw == 1) _ _ (λ one. one_word ((==_iff x_sw 1).0 one))
        (λ many.
          by_if P (comba_fits_sqr 4 z x x_sw) _ _
            (comba bigint_comba_sqr4 4 z bigint_comba_sqr4_lem)
            (λ c4.
              by_if P (comba_fits_sqr 6 z x x_sw) _ _
                (comba bigint_comba_sqr6 6 z bigint_comba_sqr6_lem)
                (λ c6.
                  by_if P (comba_fits_sqr 8 z x x_sw) _ _
                    (comba bigint_comba_sqr8 8 z bigint_comba_sqr8_lem)
                    (λ c8.
                      by_if P (comba_fits_sqr 16 z x x_sw) _ _
                        (comba bigint_comba_sqr16 16 z bigint_comba_sqr16_lem)
                        (λ c16.
                          by_if P (ltb (length x) karat_sqr_threshold) _ _ (λ few. simple)
                            (λ large.
                              by_if P (n == 0) _ _ (λ none. simple) (by_halves n chosen)))))))

-- For an array of words in which those from the given number on are zeros, bigint_sqr writes the
-- square of the number into a cleared array with room for the array twice, and keeps its size,
-- whatever the size and the method that is chosen.
pub bigint_sqr_lem :
    (x : List ℕ) (x_sw k : ℕ)
    → AreWords x
    → Matter x x_sw
    → 2 * length x ≤ k
    → (value (bigint_sqr (replicate k 0) x x_sw) ≡ value x * value x)
      × AreWords (bigint_sqr (replicate k 0) x x_sw)
      × (length (bigint_sqr (replicate k 0) x x_sw) ≡ k)
unfolding bigint_sqr
bigint_sqr_lem x x_sw k hx mx room =
    let (square, words, size) =
      sqr_words_lem x x_sw k hx mx room (replicate k 0) (length-replicate k 0) in
    stored_lem k (value x * value x) (sqr_words (replicate k 0) x x_sw) square words size
