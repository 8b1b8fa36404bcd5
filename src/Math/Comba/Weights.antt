-- ===== src/Math/Comba/Weights.antt =====
-- The products that the tables of math/bigint/mp_comba.cpp name, each at its place, make up the product
-- of the numbers.
use php_botan.Base.{
  ℕ, zero, suc, ◌+◌, ◌*◌, ◌^◌, ◌≡◌, refl, sym, ap, ap₂, ◌∙◌, arith, true, ◌==◌, ==_iff, List, [],
  ◌∷◌, length, All,
}
use php_botan.Math.Value.{value, raised, raised-add, raised-zero}
use php_botan.Math.Comba.Columns.{Term, word_at}
use php_botan.Math.Comba.Value.{term_amount, column_amount, columns_amount}
use php_botan.Math.Comba.Cover.{
  both_true, term_pairs, column_pairs, columns_pairs, on_diagonal, on_diagonals, covers, line,
  lines, amount, amount-append, amount-covers,
}

raised-suc : (n v : ℕ) → raised (suc n) v ≡ raised n (2 ^ 32 * v)
unfolding raised
raised-suc zero v = refl
raised-suc (suc n) v = ap (λ a. 2 ^ 32 * a) (raised-suc n v)

-- The number of the words from the one at `j` on.
unfoldable words_from : List ℕ → ℕ → ℕ → ℕ
words_from x j zero = 0
words_from x j (suc n) = word_at x j + 2 ^ 32 * words_from x (suc j) n

words_from_tail :
    (a : ℕ) (xs : List ℕ) (j n : ℕ) → words_from (a ∷ xs) (suc j) n ≡ words_from xs j n
unfolding words_from
words_from_tail a xs j zero = refl
words_from_tail a xs j (suc n) =
    ap (λ v. word_at xs j + 2 ^ 32 * v) (words_from_tail a xs (suc j) n)

words_from-value : (x : List ℕ) → words_from x 0 (length x) ≡ value x
unfolding words_from value
words_from-value [] = refl
words_from-value (a ∷ xs) =
    ap (λ v. a + 2 ^ 32 * v) (words_from_tail a xs 0 (length xs) ∙ words_from-value xs)

split_product : (a b v : ℕ) → a * b + 2 ^ 32 * (a * v) ≡ a * (b + 2 ^ 32 * v)
split_product a b v = grind arith

sum_product : (a b v : ℕ) → a * v + 2 ^ 32 * (b * v) ≡ (a + 2 ^ 32 * b) * v
sum_product a b v = grind arith

module _ (x y : List ℕ) where
  -- A product of two words at its place.
  unfoldable weight : ℕ × ℕ → ℕ
  weight (i, j) = raised (i + j) (word_at x i * word_at y j)

  weight-line :
      (i j n : ℕ) → amount weight (line i j n) ≡ raised (i + j) (word_at x i * words_from y j n)
  unfolding weight words_from
  weight-line i j zero = omega (
    arith,
    raised-zero (i + j),
    ap (λ a. raised (i + j) a) (let e : word_at x i * 0 ≡ 0 = omega arith in e),
  )
  weight-line i j (suc n) =
      let next : i + suc j ≡ suc (i + j) = omega arith in
      ap (λ a. weight (i, j) + a)
        (weight-line i (suc j) n
          ∙ ap (λ a. raised a (word_at x i * words_from y (suc j) n)) next
          ∙ raised-suc (i + j) (word_at x i * words_from y (suc j) n))
      ∙ sym (raised-add (i + j) (word_at x i * word_at y j) _)
      ∙ ap (raised (i + j)) (split_product (word_at x i) (word_at y j) (words_from y (suc j) n))

  weight-lines :
      (i m n : ℕ) → amount weight (lines i m n) ≡ raised i (words_from x i m * words_from y 0 n)
  unfolding words_from
  weight-lines i zero n =
      sym (raised-zero i) ∙ ap (raised i) (let e : 0 ≡ 0 * words_from y 0 n = omega arith in e)
  weight-lines i (suc m) n =
      let sum = words_from x (suc i) m in
      let first : i + 0 ≡ i = omega arith in
      amount-append weight (line i 0 n) (lines (suc i) m n)
      ∙ ap₂ (λ a b. a + b)
          (weight-line i 0 n ∙ ap (λ a. raised a (word_at x i * words_from y 0 n)) first)
          (weight-lines (suc i) m n ∙ raised-suc i (sum * words_from y 0 n))
      ∙ sym (raised-add i (word_at x i * words_from y 0 n) _)
      ∙ ap (raised i) (sum_product (word_at x i) sum (words_from y 0 n))

  abbrev plain : ℕ × ℕ → ℕ
  plain (i, j) = word_at x i * word_at y j

  -- The term adds the products of its pairs.
  abbrev pub FromPairs : Term → Type 0
  FromPairs t = amount plain (term_pairs t) ≡ term_amount x y t

  plain-column :
      (c : List Term) → All FromPairs c → amount plain (column_pairs c) ≡ column_amount x y c
  unfolding column_amount
  plain-column [] h = refl
  plain-column (t ∷ ts) (h, hs) =
      amount-append plain (term_pairs t) (column_pairs ts)
      ∙ ap₂ (λ a b. a + b) h (plain-column ts hs)

  weight-diagonal :
      (k : ℕ) (ps : List (ℕ × ℕ))
      → on_diagonal k ps ≡ true
      → amount weight ps ≡ raised k (amount plain ps)
  unfolding weight
  weight-diagonal k [] h = sym (raised-zero k)
  weight-diagonal k ((i, j) ∷ ps) h =
      let (here, rest) = both_true (i + j == k) (on_diagonal k ps) h in
      ap₂ (λ a b. a + b) (ap (λ n. raised n (plain (i, j))) ((==_iff (i + j) k).0 here))
        (weight-diagonal k ps rest)
      ∙ sym (raised-add k (plain (i, j)) (amount plain ps))

  weight-columns :
      (k : ℕ) (cs : List (List Term))
      → on_diagonals k cs ≡ true
      → All (All FromPairs) cs
      → amount weight (columns_pairs cs) ≡ raised k (columns_amount x y cs)
  unfolding columns_amount
  weight-columns k [] h g = sym (raised-zero k)
  weight-columns k (c ∷ cs) h (g, gs) =
      let (here, rest) = both_true (on_diagonal k (column_pairs c)) (on_diagonals (suc k) cs) h in
      amount-append weight (column_pairs c) (columns_pairs cs)
      ∙ ap₂ (λ a b. a + b)
          (weight-diagonal k (column_pairs c) here ∙ ap (raised k) (plain-column c g))
          (weight-columns (suc k) cs rest gs ∙ raised-suc k (columns_amount x y cs))
      ∙ sym (raised-add k (column_amount x y c) (2 ^ 32 * columns_amount x y cs))

  -- The columns whose pairs are all pairs of indices make up the product.
  pub columns_amount-value :
      (cs : List (List Term))
      → on_diagonals 0 cs ≡ true
      → covers (lines 0 (length x) (length y)) (columns_pairs cs) ≡ true
      → All (All FromPairs) cs
      → columns_amount x y cs ≡ value x * value y
  unfolding raised
  columns_amount-value cs h full g =
      sym (weight-columns 0 cs h g)
      ∙ sym (amount-covers weight (lines 0 (length x) (length y)) (columns_pairs cs) full)
      ∙ weight-lines 0 (length x) (length y)
      ∙ ap₂ (λ a b. a * b) (words_from-value x) (words_from-value y)
