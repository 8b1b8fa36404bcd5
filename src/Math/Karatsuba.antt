-- ===== src/Math/Karatsuba.antt =====
-- math/bigint/mp_karat.cpp, with the thresholds of build-data/buildh.in: products and squares of arrays
-- by halves, and the choice of a method. The workspace is a value of each call: a call reads no word of
-- it that it has not written.
pub mod Numbers
pub mod Join
pub mod Product
pub mod Halves
pub mod MulHalves
pub mod SqrHalves
pub mod Exact
use php_botan.Base.{
  ℕ, zero, suc, ◌+◌, ◌-◌, ◌*◌, ◌/◌, ◌%◌, List, [], ◌∷◌, ◌++◌, take, drop, length, replicate, Bool,
  true, false, not, ◌&&◌, ◌||◌, ltb, leb, ◌==◌, if◌then◌else◌,
}
use Prim.Native.Nat.{Ordering}
use php_botan.Math.Word.{word_add}
use php_botan.Math.Carry.{eights}
use php_botan.Math.Mp.{
  pairs, add_pair, increment, bigint_add2, bigint_sub2, bigint_sub3, bigint_simple_mul,
  bigint_simple_sqr, bigint_linmul3, bigint_cmp,
}
use php_botan.Math.Comba.{
  bigint_comba_mul4, bigint_comba_mul6, bigint_comba_mul8, bigint_comba_mul16, bigint_comba_sqr4,
  bigint_comba_sqr6, bigint_comba_sqr8, bigint_comba_sqr16,
}

-- `BOTAN_KARAT_MUL_THRESHOLD` and `BOTAN_KARAT_SQR_THRESHOLD`.
abbrev pub karat_mul_threshold : ℕ
karat_mul_threshold = 32

abbrev pub karat_sqr_threshold : ℕ
karat_sqr_threshold = 32

-- `z[N + N2] = word_add(z[N + N2], carry2, &carry)` and the loop behind it, on the words from there on.
unfoldable pub top_carry : ℕ → ℕ → List ℕ → List ℕ
unfolding word_add increment
top_carry carry2 carry [] = []
top_carry carry2 carry (t ∷ ts) =
    let (t', carry') = word_add t carry2 carry in
    t' ∷ (if carry' == 0 then ts else (increment ts).0)

-- The two halves `z0` and `z1` of `z`, to which their sum is added from the word `N2` on.
unfoldable pub add_middle : ℕ → List ℕ → List ℕ → List ℕ
unfolding eights top_carry
add_middle n2 z0 z1 =
    let n = length z0 in
    let z = z0 ++ z1 in
    let (sum, carry) = eights add_pair (n / 8) 0 (pairs z0 z1) in
    let (middle, carry2) = eights add_pair (n / 8) 0 (pairs (take n (drop n2 z)) sum) in
    take n2 z ++ (middle ++ top_carry carry2 carry (drop n (drop n2 z)))

-- The last lines, where `product` stands in the workspace.
unfoldable pub add_product : Bool → ℕ → List ℕ → List ℕ → List ℕ
unfolding bigint_add2 bigint_sub2
add_product adds n2 z product =
    take n2 z
    ++ (if adds
        then bigint_add2 (drop n2 z) (length (drop n2 z)) product
        else bigint_sub2 (drop n2 z) product)

-- The difference of two halves, the smaller one from the larger one.
unfoldable pub difference : Ordering → List ℕ → List ℕ → List ℕ
unfolding bigint_sub3
difference Ordering.gt a b = bigint_sub3 a b
difference Ordering.eq a b = bigint_sub3 b a
difference Ordering.lt a b = bigint_sub3 b a

-- `(cmp0 == cmp1) || (cmp0 == 0) || (cmp1 == 0)`
unfoldable pub adds_product : Ordering → Ordering → Bool
adds_product Ordering.lt Ordering.gt = false
adds_product Ordering.gt Ordering.lt = false
adds_product _ _ = true

-- `cmp0 && cmp1`
unfoldable pub both_differ : Ordering → Ordering → Bool
both_differ Ordering.eq _ = false
both_differ Ordering.lt Ordering.eq = false
both_differ Ordering.gt Ordering.eq = false
both_differ _ _ = true

-- The branch by halves, where `multiply` is the function itself, and `n2` is half of `n`.
unfoldable pub mul_at : (List ℕ → List ℕ → List ℕ) → ℕ → ℕ → List ℕ → List ℕ → List ℕ
unfolding bigint_cmp difference adds_product both_differ add_middle add_product
mul_at multiply n2 n x y =
    let x0 = take n2 x in
    let x1 = drop n2 x in
    let y0 = take n2 y in
    let y1 = drop n2 y in
    let cmp0 = bigint_cmp x0 x1 in
    let cmp1 = bigint_cmp y1 y0 in
    let product : List ℕ = elim (both_differ cmp0 cmp1) [
      | true ↦ multiply (difference cmp0 x0 x1) (difference cmp1 y1 y0)
      | false ↦ replicate n 0
    ] in
    add_product (adds_product cmp0 cmp1) n2 (add_middle n2 (multiply x0 y0) (multiply x1 y1))
      product

unfoldable pub mul_halves : (List ℕ → List ℕ → List ℕ) → List ℕ → List ℕ → List ℕ
unfolding mul_at
mul_halves multiply x y = mul_at multiply (length x / 2) (length x) x y

-- `N` is the length of both arrays; `fuel` bounds the depth.
unfoldable pub karatsuba_mul : ℕ → List ℕ → List ℕ → List ℕ
unfolding bigint_comba_mul6 bigint_comba_mul8 bigint_comba_mul16 bigint_simple_mul mul_halves
karatsuba_mul zero x y = []
karatsuba_mul (suc fuel) x y =
    let n = length x in
    elim (n == 6) [
      | true ↦ bigint_comba_mul6 x y
      | false ↦ elim (n == 8) [
        | true ↦ bigint_comba_mul8 x y
        | false ↦ elim (n == 16) [
          | true ↦ bigint_comba_mul16 x y
          | false ↦ elim (ltb n karat_mul_threshold || not (n % 2 == 0)) [
            | true ↦ bigint_simple_mul x y
            | false ↦ mul_halves (karatsuba_mul fuel) x y
          ]
        ]
      ]
    ]

-- `cmp == 0`
unfoldable pub is_zero : Ordering → Bool
is_zero Ordering.lt = false
is_zero Ordering.eq = true
is_zero Ordering.gt = false

unfoldable pub sqr_at : (List ℕ → List ℕ) → ℕ → ℕ → List ℕ → List ℕ
unfolding bigint_cmp bigint_sub3 is_zero add_middle add_product
sqr_at square n2 n x =
    let x0 = take n2 x in
    let x1 = drop n2 x in
    let cmp = bigint_cmp x0 x1 in
    let product : List ℕ = elim cmp [
      | Ordering.eq ↦ replicate n 0
      | Ordering.lt ↦ square (bigint_sub3 x1 x0)
      | Ordering.gt ↦ square (bigint_sub3 x0 x1)
    ] in
    add_product (is_zero cmp) n2 (add_middle n2 (square x0) (square x1)) product

unfoldable pub sqr_halves : (List ℕ → List ℕ) → List ℕ → List ℕ
unfolding sqr_at
sqr_halves square x = sqr_at square (length x / 2) (length x) x

unfoldable pub karatsuba_sqr : ℕ → List ℕ → List ℕ
unfolding bigint_comba_sqr6 bigint_comba_sqr8 bigint_comba_sqr16 bigint_simple_sqr sqr_halves
karatsuba_sqr zero x = []
karatsuba_sqr (suc fuel) x =
    let n = length x in
    elim (n == 6) [
      | true ↦ bigint_comba_sqr6 x
      | false ↦ elim (n == 8) [
        | true ↦ bigint_comba_sqr8 x
        | false ↦ elim (n == 16) [
          | true ↦ bigint_comba_sqr16 x
          | false ↦ elim (ltb n karat_sqr_threshold || not (n % 2 == 0)) [
            | true ↦ bigint_simple_sqr x
            | false ↦ sqr_halves (karatsuba_sqr fuel) x
          ]
        ]
      ]
    ]
