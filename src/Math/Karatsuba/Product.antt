-- ===== src/Math/Karatsuba/Product.antt =====
-- math/bigint/mp_karat.cpp: the product by halves is the product.
use php_botan.Base.{
  ℕ, ◌+◌, ◌<◌, ◌≤◌, ◌≡◌, sym, ap, ap₂, ◌∙◌, arith, true, false, List, ◌++◌, length, take, drop,
  replicate, length-append, All-take, All-drop, All-append, append-nil,
}
use mathlib.Core.Path.{subst}
use php_botan.Base.Words.{IsU32}
use php_botan.Math.Value.{
  AreWords, value, raised, raised-add, raised-raised, value-append, value-lt,
}
use php_botan.Math.Mp.{bigint_add2, bigint_sub2}
use php_botan.Math.Mp.Sub.{bigint_sub2_lem}
use php_botan.Math.Mp.Sizes.{length-bigint_sub2}
use php_botan.Math.Mp.Whole.{bigint_add2_lem, raised_cancel, raised_cancel_lt}
use php_botan.Math.Karatsuba.{add_product}
use php_botan.Math.Karatsuba.Join.{value_parts}

-- The last step, where the words from `n2` on take the product.
module _ (n2 : ℕ) (z product : List ℕ) (hz : AreWords z) (hp : AreWords product)
    (le : n2 + length product ≤ length z) where
  pub add_product_adds :
      value z + raised n2 (value product) < raised (length z) 1
      → (value (add_product true n2 z product) ≡ value z + raised n2 (value product))
        × AreWords (add_product true n2 z product)
        × (length (add_product true n2 z product) ≡ length z)
  unfolding add_product
  add_product_adds fits =
      let rest = drop n2 z in
      let (parts, low_size, rest_size) = value_parts n2 z (omega arith) in
      let low = value-lt (take n2 z) (All-take IsU32 n2 z hz) in
      let total = raised-add n2 (value rest) (value product) in
      let at = raised-raised n2 (length rest) 1 in
      let whole : n2 + length rest ≡ length z = omega (arith, rest_size) in
      let below : value rest + value product < raised (length rest + 0) 1 =
        raised_cancel_lt n2 (value rest + value product) (raised (length rest + 0) 1)
          (omega (
            arith,
            fits,
            parts,
            total,
            at,
            ap (λ k. raised k 1) whole,
            ap (λ k. raised n2 (raised k 1))
                (let e : length rest + 0 ≡ length rest = omega arith in e),
          ))
          (omega (arith, low, ap (λ k. raised k 1) low_size)) in
      let (sum, words, size) =
        bigint_add2_lem rest product 0 (All-drop IsU32 n2 z hz) hp (omega (arith, rest_size))
          below in
      let given : bigint_add2 (rest ++ replicate 0 0) (length rest) product
          ≡ bigint_add2 rest (length rest) product =
        ap (λ a. bigint_add2 a (length rest) product) (append-nil rest) in
      let result = bigint_add2 rest (length rest) product in
      let counted : length result ≡ length rest = sym (ap length given) ∙ omega (arith, size) in
      (
        value-append (take n2 z) result
            ∙ ap₂ (λ k v. value (take n2 z) + raised k v) low_size (sym (ap value given) ∙ sum)
            ∙ omega (arith, parts, total),
        All-append IsU32 (take n2 z) result (All-take IsU32 n2 z hz) (subst AreWords given words),
        omega (arith, length-append (take n2 z) result, low_size, rest_size, counted),
      )

  pub add_product_subtracts :
      (d : ℕ)
      → value z ≡ d + raised n2 (value product)
      → (value (add_product false n2 z product) ≡ d)
        × AreWords (add_product false n2 z product)
        × (length (add_product false n2 z product) ≡ length z)
  unfolding add_product
  add_product_subtracts d e =
      let rest = drop n2 z in
      let (parts, low_size, rest_size) = value_parts n2 z (omega arith) in
      let low = value-lt (take n2 z) (All-take IsU32 n2 z hz) in
      let fits : value product ≤ value rest =
        raised_cancel n2 (value (take n2 z)) (value product) (value rest) (omega (arith, parts, e))
          (omega (arith, low, ap (λ k. raised k 1) low_size)) in
      let size = length-bigint_sub2 rest product (omega (arith, rest_size)) in
      let (sum, words) =
        bigint_sub2_lem rest product (All-drop IsU32 n2 z hz) hp (omega (arith, rest_size)) fits in
      (
        value-append (take n2 z) (bigint_sub2 rest product)
            ∙ ap (λ k. value (take n2 z) + raised k (value (bigint_sub2 rest product))) low_size
            ∙ omega (
              arith,
              parts,
              e,
              ap (raised n2) sum,
              raised-add n2 (value (bigint_sub2 rest product)) (value product),
            ),
        All-append IsU32 (take n2 z) (bigint_sub2 rest product) (All-take IsU32 n2 z hz) words,
        omega (
          arith,
          length-append (take n2 z) (bigint_sub2 rest product),
          low_size,
          rest_size,
          size,
        ),
      )
