-- ===== src/Math/Mp/Mul.antt =====
-- Products of arrays, and of an array and a word.
use php_botan.Base.{
  ℕ, zero, suc, ◌+◌, ◌-◌, ◌*◌, ◌/◌, ◌^◌, ◌≤◌, ◌≡◌, refl, sym, ap, ◌∙◌, arith, List, [], ◌∷◌, ◌++◌,
  length, take, drop, length-drop, length-append, All-take, All-drop, All-append, replicate,
  append-nil, length-replicate,
}
use php_botan.Base.Words.{IsU32}
use php_botan.Math.Value.{AreWords, value, raised, value-append, zeros-AreWords, value-zeros}
use php_botan.Math.Carry.{carry_loop, eights, eights-carry_loop, length-carry_loop, carry_loop-adds}
use php_botan.Base.{take-append_exact, drop-append_past, append_assoc}
use php_botan.Math.Mp.{
  pairs, madd_pair, mul_rows, bigint_simple_mul, bigint_simple_sqr, bigint_linmul3,
}
use php_botan.Math.Mp.Pairs.{
  ArePair, row, pairs-ArePair, length-pairs, value-row, value_scaled, madd_pair-Adds, madd2-Adds,
}
use php_botan.Math.Word.{word_madd2}

module _ (x w : List ℕ) (y : ℕ) (hx : AreWords x) (hw : AreWords w) (hy : IsU32 y)
    (same : length w ≡ length x) where
  row_sum : List ℕ × ℕ
  row_sum = eights (madd_pair y) (length x / 8) 0 (pairs x w)

  -- A row before its carry is stored behind it.
  row_sum_lem :
      (value (row_sum.0 ++ row_sum.1 ∷ []) ≡ value x * y + value w)
      × AreWords (row_sum.0 ++ row_sum.1 ∷ [])
      × (length row_sum.0 ≡ length x)
  unfolding row_sum value
  row_sum_lem =
      let loop = carry_loop (madd_pair y) 0 (pairs x w) in
      let sums =
        carry_loop-adds (madd_pair y) (row y) ArePair (2 ^ 32 - 1) (madd_pair-Adds y hy) 0
          (pairs x w) (pairs-ArePair x w hx hw) (omega arith) in
      let size : length loop.0 ≡ length x =
        length-carry_loop (madd_pair y) 0 (pairs x w) ∙ length-pairs x w (omega arith) ∙ same in
      let counted : length (pairs x w) ≡ length x = length-pairs x w (omega arith) ∙ same in
      let carry : 0 + 2 ^ 32 * 0 + loop.1 ≡ loop.1 = omega arith in
      rw (eights-carry_loop (madd_pair y) (length x / 8) 0 (pairs x w)) (
        omega (
          arith,
          sums.0,
          value-append loop.0 (loop.1 ∷ []),
          ap (λ (n : ℕ). raised n (loop.1 + 2 ^ 32 * 0)) size,
          ap (λ (n : ℕ). raised (length x) n)
              (let e : loop.1 + 2 ^ 32 * 0 ≡ loop.1 = omega arith in e),
          ap (λ (n : ℕ). raised n loop.1) counted,
          value-row y x w (omega arith),
        ),
        All-append IsU32 loop.0 (loop.1 ∷ []) sums.1 (omega (arith, sums.2), tt),
        size,
      )

times_sum : (v y u : ℕ) → v * (y + 2 ^ 32 * u) ≡ v * y + 2 ^ 32 * (v * u)
times_sum v y u = grind arith

-- The first word of a row is final, and the others are the next row's.
value-take_one :
    (row rest : List ℕ)
    → 1 ≤ length row
    → value (take 1 row ++ rest) + 2 ^ 32 * value (drop 1 row) ≡ value row + 2 ^ 32 * value rest
unfolding value
value-take_one [] rest h = absurd (omega arith)
value-take_one (r ∷ row) rest h = omega arith

shifted :
    (row zs : List ℕ) (f : List ℕ → List ℕ)
    → 1 ≤ length row
    → take 1 (row ++ zs) ++ f (drop 1 (row ++ zs)) ≡ take 1 row ++ f (drop 1 row ++ zs)
shifted [] zs f h = absurd (omega arith)
shifted (r ∷ row) zs f h = refl

-- A round of the product.
mul_rows_step :
    (x w ys : List ℕ) (y : ℕ)
    → AreWords x
    → AreWords w
    → IsU32 y
    → length w ≡ length x
    → (row : List ℕ) × (mul_rows x (y ∷ ys) (w ++ replicate (length (y ∷ ys)) 0)
        ≡ take 1 row ++ mul_rows x ys (drop 1 row ++ replicate (length ys) 0))
      × (value row ≡ value x * y + value w)
      × AreWords row
      × (length row ≡ length x + 1)
unfolding mul_rows row_sum
mul_rows_step x w ys y hx hw hy same =
    let zeros : List ℕ = replicate (length ys) 0 in
    let sums = row_sum_lem x w y hx hw hy same in
    let sum = row_sum x w y hx hw hy same in
    let kept : take (length x) (w ++ (0 ∷ zeros)) ≡ w =
      take-append_exact w (0 ∷ zeros) (length x) (omega arith) in
    let past : length x + 1 - length w ≡ 1 = omega arith in
    let left : drop (length x + 1) (w ++ (0 ∷ zeros)) ≡ zeros =
      drop-append_past (length x + 1) w (0 ∷ zeros) (omega arith)
      ∙ ap (λ (n : ℕ). drop n (0 ∷ zeros)) past in
    let size : length (sum.0 ++ sum.1 ∷ []) ≡ length x + 1 =
      omega (arith, length-append sum.0 (sum.1 ∷ []), sums.2) in
    (
      sum.0 ++ sum.1 ∷ [],
      rw (kept, left)
          (ap (λ (r : List ℕ). take 1 r ++ mul_rows x ys (drop 1 r))
              (sym (append_assoc sum.0 (sum.1 ∷ []) zeros))
            ∙ shifted (sum.0 ++ sum.1 ∷ []) zeros (mul_rows x ys) (omega (arith, size))),
      sums.0,
      sums.1,
      size,
    )

mul_rows_lem :
    (x ys w : List ℕ)
    → AreWords x
    → AreWords ys
    → AreWords w
    → length w ≡ length x
    → (value (mul_rows x ys (w ++ replicate (length ys) 0)) ≡ value x * value ys + value w)
      × AreWords (mul_rows x ys (w ++ replicate (length ys) 0))
unfolding mul_rows value
mul_rows_lem x [] w hx hy hw same = (ap value (append-nil w) ∙ omega arith, rw (append-nil w) hw)
mul_rows_lem x (y ∷ ys) w hx (hy, hys) hw same =
    let (row, step, amount, words, size) = mul_rows_step x w ys y hx hw hy same in
    let rest =
      mul_rows_lem x ys (drop 1 row) hx hys (All-drop IsU32 1 row words)
        (omega (arith, length-drop 1 row, size)) in
    let first =
      value-take_one row (mul_rows x ys (drop 1 row ++ replicate (length ys) 0))
        (omega (arith, size)) in
    let spread = times_sum (value x) y (value ys) in
    (
      ap value step ∙ omega (arith, first, rest.0, amount, spread),
      rw step (All-append IsU32 (take 1 row) _ (All-take IsU32 1 row words) rest.1),
    )

replicate-add : (m n : ℕ) → replicate {A = ℕ} (m + n) 0 ≡ replicate m 0 ++ replicate n 0
replicate-add zero n = let e : zero + n ≡ n = omega arith in ap (λ (k : ℕ). replicate {A = ℕ} k 0) e
replicate-add (suc m) n =
    let e : suc m + n ≡ suc (m + n) = omega arith in
    ap (λ (k : ℕ). replicate {A = ℕ} k 0) e ∙ ap (λ t. 0 ∷ t) (replicate-add m n)

-- The schoolbook product of two arrays stands for the product of the numbers, whatever the sizes.
pub bigint_simple_mul_lem :
    (x y : List ℕ)
    → AreWords x
    → AreWords y
    → (value (bigint_simple_mul x y) ≡ value x * value y) × AreWords (bigint_simple_mul x y)
unfolding bigint_simple_mul
bigint_simple_mul_lem x y hx hy =
    let start : replicate (length x + length y) 0
        ≡ replicate (length x) 0 ++ replicate (length y) 0 =
      replicate-add (length x) (length y) in
    let rows =
      mul_rows_lem x y (replicate (length x) 0) hx hy (zeros-AreWords (length x))
        (length-replicate (length x) 0) in
    rw start (omega (arith, rows.0, value-zeros (length x)), rows.1)

-- Squaring is the product of a number and itself.
pub bigint_simple_sqr_lem :
    (x : List ℕ)
    → AreWords x
    → (value (bigint_simple_sqr x) ≡ value x * value x) × AreWords (bigint_simple_sqr x)
unfolding bigint_simple_sqr bigint_simple_mul
bigint_simple_sqr_lem x hx =
    let twice : 2 * length x ≡ length x + length x = omega arith in
    rw twice (bigint_simple_mul_lem x x hx hx)

-- The product of an array and a word, with its highest word.
pub bigint_linmul3_lem :
    (x : List ℕ) (y : ℕ)
    → AreWords x
    → IsU32 y
    → (value (bigint_linmul3 x y) ≡ value x * y) × AreWords (bigint_linmul3 x y)
unfolding bigint_linmul3 value
bigint_linmul3_lem x y hx hy =
    let loop = carry_loop (λ a c. word_madd2 a y c) 0 x in
    let sums =
      carry_loop-adds (λ a c. word_madd2 a y c) (λ a. a * y) IsU32 (2 ^ 32 - 1) (madd2-Adds y hy) 0
        x hx (omega arith) in
    let size : length loop.0 ≡ length x = length-carry_loop (λ a c. word_madd2 a y c) 0 x in
    let alone : loop.1 + 2 ^ 32 * 0 ≡ loop.1 = omega arith in
    rw (eights-carry_loop (λ a c. word_madd2 a y c) (length x / 8) 0 x) (
      omega (
        arith,
        sums.0,
        value-append loop.0 (loop.1 ∷ []),
        ap (λ (n : ℕ). raised n (loop.1 + 2 ^ 32 * 0)) size,
        ap (raised (length x)) alone,
        value_scaled y x,
      ),
      All-append IsU32 loop.0 (loop.1 ∷ []) sums.1 (omega (arith, sums.2), tt),
    )
