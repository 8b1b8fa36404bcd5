-- ===== src/Math/Mp/Whole.antt =====
-- Sums with the word that the carry goes to.
use php_botan.Base.{
  ℕ, zero, suc, ◌+◌, ◌-◌, ◌*◌, ◌^◌, ◌<◌, ◌≤◌, ◌≡◌, refl, ap, ◌∙◌, arith, ltb, ◌==◌, if◌then◌else◌,
  List, ◌∷◌, ◌++◌, length, drop, length-append, length-replicate, replicate, All-append,
  take-append_exact, drop-append_exact,
}
use php_botan.Base.Words.{IsU32}
use php_botan.Math.Value.{
  AreWords, value, raised, raised-add, raised-zero, value-append, value-lt, value-zeros,
  zeros-AreWords,
}
use php_botan.Math.Mp.{bigint_add2_nc, bigint_add3_nc, bump, bigint_add2, bigint_add3}
use php_botan.Math.Mp.Add.{bigint_add2_nc-IsSum, bigint_add3_nc-IsSum}
use php_botan.Math.Mp.Sizes.{length-bigint_add2_nc, length-bigint_add3_nc}

-- Places keep the order.
pub raised_cancel : (n low a b : ℕ) → raised n a ≤ low + raised n b → low < raised n 1 → a ≤ b
raised_cancel n low zero b h g = omega arith
raised_cancel n low (suc a) zero h g =
    let s : suc a ≡ 1 + a = omega arith in
    absurd (omega (arith, raised-zero n, ap (raised n) s, raised-add n 1 a))
raised_cancel n low (suc a) (suc b) h g =
    let s : suc a ≡ 1 + a = omega arith in
    let t : suc b ≡ 1 + b = omega arith in
    let rest =
      raised_cancel n low a b
        (omega (arith, ap (raised n) s, ap (raised n) t, raised-add n 1 a, raised-add n 1 b)) g in
    omega arith

pub raised_cancel_lt : (n a b : ℕ) → raised n a < raised n b → 0 < raised n 1 → a < b
raised_cancel_lt n a b h some =
    let s : suc a ≡ a + 1 = omega arith in
    raised_cancel n (raised n 1 - 1) (suc a) b (omega (arith, ap (raised n) s, raised-add n a 1))
      (omega arith)

pub raised-le : (m n : ℕ) → m ≤ n → raised m 1 ≤ raised n 1
unfolding raised
raised-le zero zero h = omega arith
raised-le zero (suc n) h = omega (arith, raised-le zero n (omega arith))
raised-le (suc m) zero h = absurd (omega arith)
raised-le (suc m) (suc n) h = omega (arith, raised-le m n (omega arith))

-- The words of a sum, and the carry in the zeros behind them.
stored_lem :
    (n k : ℕ) (sum : List ℕ) (c total : ℕ)
    → AreWords sum
    → length sum ≡ n
    → c ≤ 1
    → value sum + raised n c ≡ total
    → total < raised (n + k) 1
    → (value (sum ++ (if c == 0 then replicate k 0 else bump (replicate k 0))) ≡ total)
      × AreWords (sum ++ (if c == 0 then replicate k 0 else bump (replicate k 0)))
      × (length (sum ++ (if c == 0 then replicate k 0 else bump (replicate k 0))) ≡ n + k)
unfolding bump value
stored_lem n k sum zero total words size small e fits = (
  omega (
    arith,
    value-append sum (replicate k 0),
    value-zeros k,
    ap (raised (length sum)) (value-zeros k),
    raised-zero (length sum),
    raised-zero n,
  ),
  All-append IsU32 sum (replicate k 0) words (zeros-AreWords k),
  omega (arith, length-append sum (replicate k 0), length-replicate {A = ℕ} k 0),
)
stored_lem n zero sum (suc zero) total words size small e fits =
    let s : n + 0 ≡ n = omega arith in absurd (omega (arith, ap (λ m. raised m 1) s))
stored_lem n (suc k) sum (suc zero) total words size small e fits =
    let one : 1 + 2 ^ 32 * value (replicate k 0) ≡ 1 = omega (arith, value-zeros k) in
    (
      omega (
        arith,
        value-append sum (1 ∷ replicate k 0),
        ap (raised (length sum)) one,
        ap (λ m. raised m 1) size,
      ),
      All-append IsU32 sum (1 ∷ replicate k 0) words (omega arith, zeros-AreWords k),
      omega (arith, length-append sum (1 ∷ replicate k 0), length-replicate {A = ℕ} k 0),
    )
stored_lem n k sum (suc (suc c)) total words size small e fits = absurd (omega arith)

small_carry : (n v c a b : ℕ) → v + raised n c ≡ a + b → a < raised n 1 → b < raised n 1 → c ≤ 1
small_carry n v c a b e h g = raised_cancel n b c 1 (omega arith) g

-- The addition to an array of enough zeros behind its first words stores the sum.
pub bigint_add2_lem :
    (x y : List ℕ) (k : ℕ)
    → AreWords x
    → AreWords y
    → length y ≤ length x
    → value x + value y < raised (length x + k) 1
    → (value (bigint_add2 (x ++ replicate k 0) (length x) y) ≡ value x + value y)
      × AreWords (bigint_add2 (x ++ replicate k 0) (length x) y)
      × (length (bigint_add2 (x ++ replicate k 0) (length x) y) ≡ length x + k)
unfolding bigint_add2
bigint_add2_lem x y k hx hy le fits =
    let (sum, words) = bigint_add2_nc-IsSum x y hx hy le in
    let carry =
      small_carry (length x) (value (bigint_add2_nc x y).0) (bigint_add2_nc x y).1 (value x)
        (value y) sum (value-lt x hx)
        (omega (arith, value-lt y hy, raised-le (length y) (length x) le)) in
    rw
      (
        take-append_exact x (replicate k 0) (length x) refl,
        drop-append_exact x (replicate k 0) (length x) refl,
      )
      (stored_lem (length x) k (bigint_add2_nc x y).0 (bigint_add2_nc x y).1 (value x + value y)
        words (length-bigint_add2_nc x y le) carry sum fits)

pub drop_zeros : (n k : ℕ) → n ≤ k → drop n (replicate {A = ℕ} k 0) ≡ replicate (k - n) 0
drop_zeros zero k h = let e : k ≡ k - 0 = omega arith in ap (λ m. replicate {A = ℕ} m 0) e
drop_zeros (suc n) zero h = absurd (omega arith)
drop_zeros (suc n) (suc k) h =
    let e : k - n ≡ suc k - suc n = omega arith in
    drop_zeros n k (omega arith) ∙ ap (λ m. replicate {A = ℕ} m 0) e

abbrev pub longest : List ℕ → List ℕ → ℕ
longest x y = if ltb (length x) (length y) then length y else length x

-- The addition into an array of zeros that is large enough stores the sum.
pub bigint_add3_lem :
    (x y : List ℕ) (k : ℕ)
    → AreWords x
    → AreWords y
    → longest x y ≤ k
    → value x + value y < raised k 1
    → (value (bigint_add3 (replicate k 0) x y) ≡ value x + value y)
      × AreWords (bigint_add3 (replicate k 0) x y)
      × (length (bigint_add3 (replicate k 0) x y) ≡ k)
unfolding bigint_add3
bigint_add3_lem x y k hx hy le fits =
    let (sum, words) = bigint_add3_nc-IsSum x y hx hy in
    let n = longest x y in
    let size = length-bigint_add3_nc x y in
    let x_le : length x ≤ n = ground arith in
    let y_le : length y ≤ n = ground arith in
    let carry =
      small_carry n (value (bigint_add3_nc x y).0) (bigint_add3_nc x y).1 (value x) (value y) sum
        (omega (arith, value-lt x hx, raised-le (length x) n x_le))
        (omega (arith, value-lt y hy, raised-le (length y) n y_le)) in
    let rest : drop (length (bigint_add3_nc x y).0) (replicate {A = ℕ} k 0) ≡ replicate (k - n) 0 =
      ap (λ m. drop m (replicate {A = ℕ} k 0)) size ∙ drop_zeros n k le in
    let whole : n + (k - n) ≡ k = omega arith in
    let (exact, all_words, count) =
      stored_lem n (k - n) (bigint_add3_nc x y).0 (bigint_add3_nc x y).1 (value x + value y) words
        size carry sum (omega (arith, fits, ap (λ m. raised m 1) whole)) in
    rw rest (exact, all_words, omega (arith, count, whole))
