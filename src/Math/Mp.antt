-- ===== src/Math/Mp.antt =====
-- math/bigint/mp_asm.cpp, mulop_generic/mp_mulop.cpp and mp_misc.cpp: the loops over words. An array is
-- the list of its words, from the lowest; its size is its length, where the code passes one. The
-- arguments called y are no longer than x.
pub mod Pairs
pub mod Sums
pub mod Add
pub mod Sub
pub mod Mul
pub mod Order
pub mod Sizes
pub mod Whole
use php_botan.Base.{
  ℕ, zero, suc, ◌+◌, ◌-◌, ◌*◌, ◌/◌, ◌%◌, ◌^◌, List, [], ◌∷◌, ◌++◌, take, drop, length, replicate,
  Bool, true, false, not, ◌&&◌, ◌||◌, ltb, leb, ◌==◌, if◌then◌else◌, bit_and, bit_or,
}
use php_botan.Base.Words.{u32}
use php_botan.Math.Word.{word_add, word_sub, word_madd2, word_madd3}
use php_botan.Math.Carry.{carry_loop, eights}
use Prim.Native.Nat.{compare, Ordering}

-- Two arrays, word by word.
abbrev pub pairs : List ℕ → List ℕ → List (ℕ × ℕ)
pairs [] ys = []
pairs (x ∷ xs) [] = []
pairs (x ∷ xs) (y ∷ ys) = (x, y) ∷ pairs xs ys

abbrev pub add_pair : ℕ × ℕ → ℕ → ℕ × ℕ
add_pair (x, y) c = word_add x y c

abbrev pub sub_pair : ℕ × ℕ → ℕ → ℕ × ℕ
sub_pair (x, y) c = word_sub x y c

-- `for(j = y_size; j != x_size; ++j) if(++x[j]) return 0; return 1;`
unfoldable pub increment : List ℕ → List ℕ × ℕ
increment [] = ([], 1)
increment (x ∷ xs) =
    let (xs', c) = increment xs in
    if u32 (x + 1) == 0 then (u32 (x + 1) ∷ xs', c) else (u32 (x + 1) ∷ xs, 0)

unfoldable pub bigint_add2_nc : List ℕ → List ℕ → List ℕ × ℕ
unfolding increment eights
bigint_add2_nc x y =
    let (low, carry) = eights add_pair (length y / 8) 0 (pairs (take (length y) x) y) in
    let (high, top) = increment (drop (length y) x) in
    if carry == 0 then (low ++ drop (length y) x, 0) else (low ++ high, top)

-- The last loop of `bigint_add3_nc`.
unfoldable pub add_carry : ℕ → List ℕ → List ℕ × ℕ
add_carry c [] = ([], c)
add_carry c (x ∷ xs) =
    let x' = u32 (x + c) in
    let (zs, c') = add_carry (if not (c == 0) && not (x' == 0) then 0 else c) xs in (x' ∷ zs, c')

-- The body of `bigint_add3_nc` behind the exchange of its arguments.
unfoldable pub add3_ordered : List ℕ → List ℕ → List ℕ × ℕ
unfolding add_carry eights
add3_ordered x y =
    let (low, carry) = eights add_pair (length y / 8) 0 (pairs (take (length y) x) y) in
    let (high, top) = add_carry carry (drop (length y) x) in (low ++ high, top)

unfoldable pub bigint_add3_nc : List ℕ → List ℕ → List ℕ × ℕ
unfolding add3_ordered
bigint_add3_nc x y = if ltb (length x) (length y) then add3_ordered y x else add3_ordered x y

-- `++x[x_size]`, on what stands from there on.
unfoldable pub bump : List ℕ → List ℕ
bump [] = []
bump (t ∷ ts) = u32 (t + 1) ∷ ts

-- `x_size` words of `x` are added to; the rest of the array follows them.
unfoldable pub bigint_add2 : List ℕ → ℕ → List ℕ → List ℕ
unfolding bigint_add2_nc bump
bigint_add2 x x_size y =
    let (sum, carry) = bigint_add2_nc (take x_size x) y in
    sum ++ (if carry == 0 then drop x_size x else bump (drop x_size x))

-- `z` is overwritten but for what stands behind the sum.
unfoldable pub bigint_add3 : List ℕ → List ℕ → List ℕ → List ℕ
unfolding bigint_add3_nc bump
bigint_add3 z x y =
    let (sum, carry) = bigint_add3_nc x y in
    sum ++ (if carry == 0 then drop (length sum) z else bump (drop (length sum) z))

-- `for(j = y_size; j != x_size; ++j) { --x[j]; if(x[j] != MP_WORD_MAX) return; }`
unfoldable pub decrement : List ℕ → List ℕ
decrement [] = []
decrement (x ∷ xs) =
    let x' = u32 (x + 2 ^ 32 - 1) in
    let rest = decrement xs in if x' == 2 ^ 32 - 1 then x' ∷ rest else x' ∷ xs

unfoldable pub bigint_sub2 : List ℕ → List ℕ → List ℕ
unfolding decrement eights
bigint_sub2 x y =
    let (low, carry) = eights sub_pair (length y / 8) 0 (pairs (take (length y) x) y) in
    if carry == 0 then low ++ drop (length y) x else low ++ decrement (drop (length y) x)

-- The last loop of `bigint_sub3`.
unfoldable pub sub_carry : ℕ → List ℕ → List ℕ
sub_carry c [] = []
sub_carry c (x ∷ xs) =
    let x' = u32 (x + 2 ^ 32 - c) in
    x' ∷ sub_carry (if not (c == 0) && not (x' == 2 ^ 32 - 1) then 0 else c) xs

unfoldable pub bigint_sub3 : List ℕ → List ℕ → List ℕ
unfolding sub_carry eights
bigint_sub3 x y =
    let (low, carry) = eights sub_pair (length y / 8) 0 (pairs (take (length y) x) y) in
    low ++ sub_carry carry (drop (length y) x)

-- `x_size` words of `x` and the one behind them are written; the others stay.
unfoldable pub bigint_linmul2 : List ℕ → ℕ → ℕ → List ℕ
unfolding eights
bigint_linmul2 x x_size y =
    let (low, carry) = eights (λ a c. word_madd2 a y c) (x_size / 8) 0 (take x_size x) in
    low ++ (carry ∷ drop (x_size + 1) x)

unfoldable pub bigint_linmul3 : List ℕ → ℕ → List ℕ
unfolding eights
bigint_linmul3 x y =
    let (low, carry) = eights (λ a c. word_madd2 a y c) (length x / 8) 0 x in low ++ carry ∷ []

-- A row of the product: `word8_madd3` and `word_madd3` on the words of `x` and those of `z` from `i` on.
abbrev pub madd_pair : ℕ → ℕ × ℕ → ℕ → ℕ × ℕ
madd_pair y (x, z) c = word_madd3 x y z c

-- The rounds over `y`. Round `i` writes `z[i]` to `z[x_size + i]`, so that its first word is final.
unfoldable pub mul_rows : List ℕ → List ℕ → List ℕ → List ℕ
unfolding eights
mul_rows x [] z = z
mul_rows x (y ∷ ys) z =
    let (low, carry) = eights (madd_pair y) (length x / 8) 0 (pairs x (take (length x) z)) in
    let z' = low ++ (carry ∷ drop (length x + 1) z) in take 1 z' ++ mul_rows x ys (drop 1 z')

unfoldable pub bigint_simple_mul : List ℕ → List ℕ → List ℕ
unfolding mul_rows
bigint_simple_mul x y = mul_rows x y (replicate (length x + length y) 0)

unfoldable pub bigint_simple_sqr : List ℕ → List ℕ
unfolding mul_rows
bigint_simple_sqr x = mul_rows x x (replicate (2 * length x) 0)

-- The result of a comparison: `lt` for -1, `eq` for 0, `gt` for 1.
unfoldable pub negated : Ordering → Ordering
negated Ordering.lt = Ordering.gt
negated Ordering.eq = Ordering.eq
negated Ordering.gt = Ordering.lt

-- The loops go from the highest word down, and return at the first one that decides.
unfoldable pub cmp_words : List ℕ → List ℕ → Ordering
cmp_words [] ys = Ordering.eq
cmp_words (x ∷ xs) [] = elim (cmp_words xs []) [
  | Ordering.gt ↦ Ordering.gt
  | _ ↦ if x == 0 then Ordering.eq else Ordering.gt
]
cmp_words (x ∷ xs) (y ∷ ys) = elim (cmp_words xs ys) [
  | Ordering.lt ↦ Ordering.lt
  | Ordering.gt ↦ Ordering.gt
  | Ordering.eq ↦ if ltb y x then Ordering.gt else if ltb x y then Ordering.lt else Ordering.eq
]

unfoldable pub bigint_cmp : List ℕ → List ℕ → Ordering
unfolding cmp_words negated
bigint_cmp x y = if ltb (length x) (length y) then negated (cmp_words y x) else cmp_words x y

-- A round of `bigint_divop`, for the bit of `n0` at a place; the state is (high, quotient).
unfoldable pub div_round : ℕ → ℕ → ℕ × ℕ → ℕ × ℕ
div_round d bit (high, quotient) =
    let high' = bit_or (u32 (high * 2)) bit in
    let quotient' = u32 (quotient * 2) in
    if not (bit_and high (2 ^ 31) == 0) || leb d high'
    then (u32 (high' + 2 ^ 32 - d), bit_or quotient' 1)
    else (high', quotient')

-- The last `k` rounds.
unfoldable pub div_rounds : ℕ → ℕ → ℕ → ℕ × ℕ → ℕ × ℕ
unfolding div_round
div_rounds d n0 zero s = s
div_rounds d n0 (suc k) s = div_rounds d n0 k (div_round d (n0 / 2 ^ k % 2) s)

unfoldable pub bigint_divop : ℕ → ℕ → ℕ → ℕ
unfolding div_rounds
bigint_divop n1 n0 d = (div_rounds d n0 32 (n1 % d, 0)).1

unfoldable pub bigint_modop : ℕ → ℕ → ℕ → ℕ
unfolding bigint_divop
bigint_modop n1 n0 d =
    let (z, dummy) = word_madd2 (bigint_divop n1 n0 d) d 0 in u32 (n0 + 2 ^ 32 - z)

-- Whether `q` times the two highest words of the divisor is above three words of the dividend.
unfoldable pub bigint_divcore : ℕ → ℕ → ℕ → ℕ → ℕ → ℕ → Bool
bigint_divcore q y1 y2 x1 x2 x3 =
    let (y2', c2) = word_madd2 q y2 0 in
    let (y1', y0') = word_madd2 q y1 c2 in
    if ltb x1 y0'
    then true
    else if ltb y0' x1
    then false
    else if ltb x2 y1'
    then true
    else if ltb y1' x2
    then false
    else ltb x3 y2'
