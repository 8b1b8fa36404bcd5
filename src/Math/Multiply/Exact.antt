-- ===== src/Math/Multiply/Exact.antt =====
-- math/bigint/mp_karat.cpp: whatever the method, the product is the product.
use php_botan.Base.{
  ℕ, zero, suc, ◌+◌, ◌-◌, ◌*◌, ◌≤◌, ◌≡◌, ap, ap₂, ◌∙◌, arith, true, false, ◌||◌, ltb, ◌==◌, ==_iff,
  inl, inr, List, [], ◌∷◌, length, take, drop, replicate, length-take, take-take, length-append,
  length-replicate, All-take, All-append,
}
use mathlib.Core.Path.{subst}
use php_botan.Base.Words.{IsU32}
use php_botan.Math.Value.{
  AreWords, value, raised, raised-zero, value-append, value-zeros, zeros-AreWords,
}
use php_botan.Math.Mp.{bigint_linmul3, bigint_simple_mul}
use php_botan.Math.Mp.Mul.{bigint_simple_mul_lem, bigint_linmul3_lem}
use php_botan.Math.Mp.Sizes.{length-bigint_simple_mul, length-bigint_linmul3}
use php_botan.Math.Mp.Whole.{drop_zeros}
use php_botan.Math.Comba.Columns.{word_at}
use php_botan.Math.Comba.Value.{word_at-IsU32}
use php_botan.Math.Comba.{
  bigint_comba_mul4, bigint_comba_mul6, bigint_comba_mul8, bigint_comba_mul16,
}
use php_botan.Math.Karatsuba.MulHalves.{Multiplies}
use php_botan.Math.Comba.Exact.{
  IsProduct, bigint_comba_mul4_lem, bigint_comba_mul6_lem, bigint_comba_mul8_lem,
  bigint_comba_mul16_lem,
}
use php_botan.Math.Karatsuba.{karat_mul_threshold, karatsuba_mul}
use php_botan.Math.Karatsuba.Join.{value_parts}
use php_botan.Math.Karatsuba.Exact.{karatsuba_mul-Multiplies}
use php_botan.Math.Multiply.{comba_fits, mul_words, bigint_mul, stored, karatsuba_mul_size}
use php_botan.Math.Multiply.Sizes.{by_if, Chosen, karatsuba_mul_size_lem}

-- The first `n` words of an array matter, and the others are zeros.
abbrev pub Matter : List ℕ → ℕ → Type 0
Matter x n = (n ≤ length x) × (value (take n x) ≡ value x)

-- More words make no difference.
pub value_longer :
    (x : List ℕ) (m n : ℕ) → Matter x m → m ≤ n → n ≤ length x → value (take n x) ≡ value x
value_longer x m n (le, e) h g =
    let (whole, low, high) = value_parts n x g in
    let (part, low', high') = value_parts m (take n x) (omega (arith, low)) in
    omega (arith, whole, part, e, ap value (take-take m n x h))

-- What a method gives: the product of the numbers, in words that fit into `z`.
abbrev pub GivesProduct : ℕ → List ℕ → List ℕ → List ℕ → Type 0
GivesProduct size x y r = (value r ≡ value x * value y) × AreWords r × (length r ≤ size)

pub stored_lem :
    (k v : ℕ) (r : List ℕ)
    → value r ≡ v
    → AreWords r
    → length r ≤ k
    → (value (stored (replicate k 0) r) ≡ v)
      × AreWords (stored (replicate k 0) r)
      × (length (stored (replicate k 0) r) ≡ k)
unfolding stored
stored_lem k v r e h le =
    let zeros : drop (length r) (replicate {A = ℕ} k 0) ≡ replicate (k - length r) 0 =
      drop_zeros (length r) k le in
    rw zeros (
      value-append r (replicate (k - length r) 0)
          ∙ omega (
            arith,
            e,
            ap (raised (length r)) (value-zeros (k - length r)),
            raised-zero (length r),
          ),
      All-append IsU32 r (replicate (k - length r) 0) h (zeros-AreWords (k - length r)),
      omega (
        arith,
        length-append r (replicate (k - length r) 0),
        length-replicate {A = ℕ} (k - length r) 0,
      ),
    )

pub single : (x : List ℕ) (n : ℕ) → Matter x n → n ≡ 1 → word_at x 0 ≡ value x
unfolding value
single x zero m e = absurd (omega arith)
single x (suc (suc n)) m e = absurd (omega arith)
single [] (suc zero) (le, m) e = absurd (omega arith)
single (a ∷ x) (suc zero) (le, m) e = omega (arith, m)

swapped : (a b : ℕ) → a * b ≡ b * a
swapped a b = omega arith

-- A product of the first words.
module _ (x y : List ℕ) (x_sw y_sw k : ℕ) (hx : AreWords x) (hy : AreWords y) (mx : Matter x x_sw)
    (my : Matter y y_sw) (room : length x + length y ≤ k) where
  of_part :
      (f : List ℕ → List ℕ → List ℕ) (m n : ℕ)
      → x_sw ≤ m
      → m ≤ length x
      → y_sw ≤ n
      → n ≤ length y
      → IsProduct (take m x) (take n y) (f (take m x) (take n y))
      → GivesProduct k x y (f (take m x) (take n y))
  of_part f m n a b c d (product, words, size) = (
    product ∙ ap₂ (λ p q. p * q) (value_longer x x_sw m mx a b) (value_longer y y_sw n my c d),
    words,
    omega (arith, size, length-take m x, length-take n y),
  )

  simple : GivesProduct k x y (bigint_simple_mul (take x_sw x) (take y_sw y))
  simple =
      let (product, words) =
        bigint_simple_mul_lem (take x_sw x) (take y_sw y) (All-take IsU32 x_sw x hx)
          (All-take IsU32 y_sw y hy) in
      of_part bigint_simple_mul x_sw y_sw (omega arith) mx.0 (omega arith) my.0
        (product, words, length-bigint_simple_mul (take x_sw x) (take y_sw y))

  one_word : x_sw ≡ 1 → GivesProduct k x y (bigint_linmul3 (take y_sw y) (word_at x 0))
  one_word one =
      let (product, words) =
        bigint_linmul3_lem (take y_sw y) (word_at x 0) (All-take IsU32 y_sw y hy)
          (word_at-IsU32 x 0 hx) in
      (
        product ∙ ap₂ (λ p q. p * q) my.1 (single x x_sw mx one) ∙ swapped (value y) (value x),
        words,
        omega (
          arith,
          length-bigint_linmul3 (take y_sw y) (word_at x 0),
          length-take y_sw y,
          mx.0,
          my.0,
        ),
      )

  other_one_word : y_sw ≡ 1 → GivesProduct k x y (bigint_linmul3 (take x_sw x) (word_at y 0))
  other_one_word one =
      let (product, words) =
        bigint_linmul3_lem (take x_sw x) (word_at y 0) (All-take IsU32 x_sw x hx)
          (word_at-IsU32 y 0 hy) in
      (
        product ∙ ap₂ (λ p q. p * q) mx.1 (single y y_sw my one),
        words,
        omega (
          arith,
          length-bigint_linmul3 (take x_sw x) (word_at y 0),
          length-take x_sw x,
          mx.0,
          my.0,
        ),
      )

  -- A method for arrays of `n` words.
  by_size :
      (f : List ℕ → List ℕ → List ℕ) (n : ℕ)
      → Multiplies f n
      → (x_sw ≤ n) × (n ≤ length x)
      → (y_sw ≤ n) × (n ≤ length y)
      → GivesProduct k x y (f (take n x) (take n y))
  by_size f n mult (a, b) (c, d) = of_part f n n a b c d (
      mult (take n x) (take n y) (All-take IsU32 n x hx) (All-take IsU32 n y hy)
        (omega (arith, length-take n x)) (omega (arith, length-take n y)))

  fits_both :
      (n : ℕ) (z : List ℕ)
      → comba_fits n z x x_sw y y_sw ≡ true
      → ((x_sw ≤ n) × (n ≤ length x)) × ((y_sw ≤ n) × (n ≤ length y))
  fits_both n z e = ground arith

  comba :
      (f : List ℕ → List ℕ → List ℕ) (n : ℕ) (z : List ℕ)
      → Multiplies f n
      → comba_fits n z x x_sw y y_sw ≡ true
      → GivesProduct k x y (f (take n x) (take n y))
  comba f n z mult e = let (a, b) = fits_both n z e in by_size f n mult a b

  by_halves :
      (n : ℕ)
      → Chosen k (length x) x_sw (length y) y_sw n
      → (n == 0) ≡ false
      → GivesProduct k x y (karatsuba_mul (suc n) (take n x) (take n y))
  by_halves n (inl none) e = absurd (ground arith)
  by_halves n (inr ((even, a, b), fits)) e =
      by_size (karatsuba_mul (suc n)) n (karatsuba_mul-Multiplies (suc n) n (omega arith)) a b

  mul_words_lem : (z : List ℕ) → length z ≡ k → GivesProduct k x y (mul_words z x x_sw y y_sw)
  unfolding mul_words
  mul_words_lem z nz =
      let P = GivesProduct k x y in
      let n = karatsuba_mul_size (length z) (length x) x_sw (length y) y_sw in
      let chosen : Chosen k (length x) x_sw (length y) y_sw n =
        subst (λ m. Chosen m (length x) x_sw (length y) y_sw n) nz
          (karatsuba_mul_size_lem (length z) (length x) x_sw (length y) y_sw
            (omega (arith, nz, room))) in
      by_if P (x_sw == 1) _ _ (λ one. one_word ((==_iff x_sw 1).0 one))
        (λ not_one.
          by_if P (y_sw == 1) _ _ (λ one. other_one_word ((==_iff y_sw 1).0 one))
            (λ no_one.
              by_if P (comba_fits 4 z x x_sw y y_sw) _ _
                (comba bigint_comba_mul4 4 z bigint_comba_mul4_lem)
                (λ c4.
                  by_if P (comba_fits 6 z x x_sw y y_sw) _ _
                    (comba bigint_comba_mul6 6 z bigint_comba_mul6_lem)
                    (λ c6.
                      by_if P (comba_fits 8 z x x_sw y y_sw) _ _
                        (comba bigint_comba_mul8 8 z bigint_comba_mul8_lem)
                        (λ c8.
                          by_if P (comba_fits 16 z x x_sw y y_sw) _ _
                            (comba bigint_comba_mul16 16 z bigint_comba_mul16_lem)
                            (λ c16.
                              by_if P (ltb x_sw karat_mul_threshold || ltb y_sw karat_mul_threshold)
                                _ _ (λ few. simple)
                                (λ many.
                                  by_if P (n == 0) _ _ (λ none. simple) (by_halves n chosen))))))))

-- For two arrays of words in which those from the given numbers on are zeros, bigint_mul writes the
-- product of the numbers into a cleared array with room for both, and keeps its size, whatever the
-- sizes and the method that is chosen.
pub bigint_mul_lem :
    (x y : List ℕ) (x_sw y_sw k : ℕ)
    → AreWords x
    → AreWords y
    → Matter x x_sw
    → Matter y y_sw
    → length x + length y ≤ k
    → (value (bigint_mul (replicate k 0) x x_sw y y_sw) ≡ value x * value y)
      × AreWords (bigint_mul (replicate k 0) x x_sw y y_sw)
      × (length (bigint_mul (replicate k 0) x x_sw y y_sw) ≡ k)
unfolding bigint_mul
bigint_mul_lem x y x_sw y_sw k hx hy mx my room =
    let (product, words, size) =
      mul_words_lem x y x_sw y_sw k hx hy mx my room (replicate k 0) (length-replicate k 0) in
    stored_lem k (value x * value y) (mul_words (replicate k 0) x x_sw y y_sw) product words size
