-- ===== src/Math/Comba/Value.antt =====
-- What the columns of math/bigint/mp_comba.cpp add up to.
use php_botan.Base.{
  ℕ, zero, suc, ◌+◌, ◌*◌, ◌/◌, ◌%◌, ◌^◌, ◌<◌, ◌≤◌, ◌≡◌, refl, arith, bit_or, List, [], ◌∷◌, length,
  All,
}
use php_botan.Base.Bits.{bit_or_fields}
use php_botan.Base.Words.{IsU32, u32}
use php_botan.Math.Word.{
  Word3, word_add, word_madd2, word3_muladd, word3_muladd_2, word_add_lem, word_madd2_lem,
  word_product,
}
use php_botan.Math.Value.{AreWords, value, raised}
use php_botan.Math.Comba.Columns.{Term, once, twice, word_at, run_term, run_column, run_columns}

abbrev pub IsWord3 : Word3 → Type 0
IsWord3 (w0, w1, w2) = IsU32 w0 × IsU32 w1 × IsU32 w2

abbrev pub total : Word3 → ℕ
total (w0, w1, w2) = w0 + 2 ^ 32 * w1 + 2 ^ 64 * w2

word3_muladd_lem :
    (w : Word3) (a b : ℕ)
    → IsWord3 w
    → IsU32 a
    → IsU32 b
    → total w + a * b < 2 ^ 96
    → (total (word3_muladd w a b) ≡ total w + a * b) × IsWord3 (word3_muladd w a b)
unfolding word3_muladd
word3_muladd_lem (w0, w1, w2) a b (h0, h1, h2) ha hb small =
    let (sum, low, high) = word_madd2_lem a b w0 ha hb h0 in ground arith

-- Both words of a product, twice.
doubled :
    (low high : ℕ)
    → IsU32 low
    → IsU32 high
    → (u32 (low * 2) + 2 ^ 32 * bit_or (u32 (high * 2)) (low / 2 ^ 31) + 2 ^ 64 * (high / 2 ^ 31)
        ≡ 2 * (low + 2 ^ 32 * high))
      × IsU32 (bit_or (u32 (high * 2)) (low / 2 ^ 31))
doubled low high h g =
    let even : u32 (high * 2) ≡ (high % 2 ^ 31) * 2 ^ 1 = omega arith in
    let bit : low / 2 ^ 31 < 2 ^ 1 = omega arith in
    rw (even, bit_or_fields 1 (high % 2 ^ 31) (low / 2 ^ 31) bit) (omega arith, omega arith)

-- The three additions at the end of `word3_muladd_2`.
three_adds : Word3 → Word3 → Word3
unfolding word_add
three_adds (w0, w1, w2) (a, b, top) =
    let (w0', c0) = word_add w0 a 0 in
    let (w1', c1) = word_add w1 b c0 in let (w2', c2) = word_add w2 top c1 in (w0', w1', w2')

three_adds_lem :
    (w v : Word3)
    → IsWord3 w
    → IsWord3 v
    → total w + total v < 2 ^ 96
    → (total (three_adds w v) ≡ total w + total v) × IsWord3 (three_adds w v)
unfolding three_adds
three_adds_lem (w0, w1, w2) (a, b, top) (h0, h1, h2) (g0, g1, g2) small =
    let (s0, z0, k0) = word_add_lem w0 a 0 h0 g0 (omega arith) in
    let c0 = (word_add w0 a 0).1 in
    let (s1, z1, k1) = word_add_lem w1 b c0 h1 g1 k0 in
    let c1 = (word_add w1 b c0).1 in
    let (s2, z2, k2) = word_add_lem w2 top c1 h2 g2 k1 in (omega (arith, s0, s1, s2), (z0, z1, z2))

word3_muladd_2_lem :
    (w : Word3) (a b : ℕ)
    → IsWord3 w
    → IsU32 a
    → IsU32 b
    → total w + 2 * (a * b) < 2 ^ 96
    → (total (word3_muladd_2 w a b) ≡ total w + 2 * (a * b)) × IsWord3 (word3_muladd_2 w a b)
unfolding word3_muladd_2 three_adds
word3_muladd_2_lem w a b h ha hb small =
    let (sum, low, high) = word_madd2_lem a b 0 ha hb (omega arith) in
    let (twofold, fits) = doubled (word_madd2 a b 0).0 (word_madd2 a b 0).1 low high in
    let (result, words) =
      three_adds_lem w
        (
          u32 ((word_madd2 a b 0).0 * 2),
          bit_or (u32 ((word_madd2 a b 0).1 * 2)) ((word_madd2 a b 0).0 / 2 ^ 31),
          (word_madd2 a b 0).1 / 2 ^ 31,
        )
        h (omega arith, fits, omega arith) (omega (arith, twofold, sum)) in
    (omega (arith, result, twofold, sum), words)

unfoldable pub term_amount : List ℕ → List ℕ → Term → ℕ
term_amount x y (once i j) = word_at x i * word_at y j
term_amount x y (twice i j) = 2 * (word_at x i * word_at y j)

unfoldable pub column_amount : List ℕ → List ℕ → List Term → ℕ
unfolding term_amount
column_amount x y [] = 0
column_amount x y (t ∷ ts) = term_amount x y t + column_amount x y ts

-- The columns' amounts, each times the base once more than the one before it.
unfoldable pub columns_amount : List ℕ → List ℕ → List (List Term) → ℕ
unfolding column_amount
columns_amount x y [] = 0
columns_amount x y (c ∷ cs) = column_amount x y c + 2 ^ 32 * columns_amount x y cs

pub word_at-IsU32 : (x : List ℕ) (i : ℕ) → AreWords x → IsU32 (word_at x i)
word_at-IsU32 [] i h = omega arith
word_at-IsU32 (x ∷ xs) zero (h, hs) = h
word_at-IsU32 (x ∷ xs) (suc i) (h, hs) = word_at-IsU32 xs i hs

module _ (x y : List ℕ) (hx : AreWords x) (hy : AreWords y) where
  run_term_lem :
      (w : Word3) (t : Term)
      → IsWord3 w
      → total w + 2 ^ 65 ≤ 2 ^ 96
      → (total (run_term x y w t) ≡ total w + term_amount x y t)
        × IsWord3 (run_term x y w t)
        × (term_amount x y t ≤ 2 ^ 65)
  unfolding run_term term_amount
  run_term_lem w (once i j) h small =
      let a = word_at-IsU32 x i hx in
      let b = word_at-IsU32 y j hy in
      let most = word_product (word_at x i) (word_at y j) a b in
      let (sum, words) = word3_muladd_lem w (word_at x i) (word_at y j) h a b (omega arith) in
      (sum, words, omega arith)
  run_term_lem w (twice i j) h small =
      let a = word_at-IsU32 x i hx in
      let b = word_at-IsU32 y j hy in
      let most = word_product (word_at x i) (word_at y j) a b in
      let (sum, words) = word3_muladd_2_lem w (word_at x i) (word_at y j) h a b (omega arith) in
      (sum, words, omega arith)

  run_column_lem :
      (w : Word3) (c : List Term)
      → IsWord3 w
      → total w + length c * 2 ^ 65 ≤ 2 ^ 96
      → (total (run_column x y w c) ≡ total w + column_amount x y c) × IsWord3 (run_column x y w c)
  unfolding run_column column_amount
  run_column_lem w [] h small = (omega arith, h)
  run_column_lem w (t ∷ ts) h small =
      let (sum, words, most) = run_term_lem w t h (omega arith) in
      let (sums, result) = run_column_lem (run_term x y w t) ts words (omega arith) in
      (omega arith, result)

  -- No column overflows the three words, so that the result and what is left behind it make up the
  -- columns' amounts.
  pub run_columns_lem :
      (w : Word3) (cs : List (List Term))
      → IsWord3 w
      → total w < 2 ^ 64
      → All (λ c. length c ≤ 2 ^ 30) cs
      → (left : ℕ) × (value (run_columns x y w cs) + raised (suc (length cs)) left
          ≡ total w + columns_amount x y cs)
        × AreWords (run_columns x y w cs)
        × (length (run_columns x y w cs) ≡ length cs + 1)
  unfolding run_columns columns_amount value raised
  run_columns_lem (w0, w1, w2) [] (h0, h1, h2) small sizes =
      (w1 + 2 ^ 32 * w2, omega arith, (h0, tt), refl)
  run_columns_lem w (c ∷ cs) h small (size, sizes) =
      let (sum, (g0, g1, g2)) = run_column_lem w c h (omega arith) in
      let next = run_column x y w c in
      let (left, rest, words, count) =
        run_columns_lem (next.1, next.2, 0) cs (g1, g2, omega arith) (omega arith) sizes in
      (left, omega (arith, sum, rest), (g0, words), omega arith)
