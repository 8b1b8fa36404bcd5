-- ===== src/Math/Karatsuba/Halves.antt =====
-- math/bigint/mp_karat.cpp: the products of the halves, put together.
use php_botan.Base.{
  ℕ, ◌+◌, ◌*◌, ◌<◌, ◌≤◌, ◌≡◌, ap, ap₂, ◌∙◌, arith, Bool, true, false, List, length, take, drop,
  All-take, All-drop,
}
use php_botan.Base.Words.{IsU32}
use php_botan.Math.Value.{AreWords, value, raised, raised-add, value-lt}
use php_botan.Math.Mp.{bigint_sub3}
use php_botan.Math.Mp.Sub.{bigint_sub3_lem}
use php_botan.Math.Mp.Sizes.{length-bigint_sub3}
use php_botan.Math.Comba.Exact.{IsProduct}
use php_botan.Math.Karatsuba.{add_middle, add_product}
use php_botan.Math.Karatsuba.Numbers.{halves_product, halves_fit}
use php_botan.Math.Karatsuba.Join.{value_parts, add_middle_lem}
use php_botan.Math.Karatsuba.Product.{add_product_adds, add_product_subtracts}

-- What is known of the product in the workspace: `s` is the sum of the products of the halves, and
-- `c` that of the products across.
abbrev pub Signed : Bool → List ℕ → ℕ → ℕ → ℕ → Type 0
Signed true p size s c = AreWords p × (length p ≡ size) × (s + value p ≡ c)
Signed false p size s c = AreWords p × (length p ≡ size) × (c + value p ≡ s)

pub subtracted :
    (n : ℕ) (a b : List ℕ)
    → AreWords a
    → AreWords b
    → length a ≡ n
    → length b ≡ n
    → value b ≤ value a
    → (value a ≡ value b + value (bigint_sub3 a b))
      × AreWords (bigint_sub3 a b)
      × (length (bigint_sub3 a b) ≡ n)
subtracted n a b ha hb na nb le =
    let smaller : length b ≤ length a = omega arith in
    let (sum, words) = bigint_sub3_lem a b ha hb smaller le in
    (omega (arith, sum), words, length-bigint_sub3 a b smaller ∙ na)

module _ (n : ℕ) (x0 x1 y0 y1 z0 z1 : List ℕ) (hx0 : AreWords x0 × (length x0 ≡ n))
    (hx1 : AreWords x1 × (length x1 ≡ n)) (hy0 : AreWords y0 × (length y0 ≡ n))
    (hy1 : AreWords y1 × (length y1 ≡ n)) (first : IsProduct x0 y0 z0)
    (second : IsProduct x1 y1 z1) where
  abbrev straight : ℕ
  straight = value x0 * value y0 + value x1 * value y1

  abbrev across : ℕ
  across = value x0 * value y1 + value x1 * value y0

  abbrev middle : List ℕ
  middle = add_middle n z0 z1

  abbrev full : ℕ
  full = (value x0 + raised n (value x1)) * (value y0 + raised n (value y1))

  middle_lem :
      1 ≤ n
      → (value middle
          ≡ value x0 * value y0 + raised n straight + raised (n + n) (value x1 * value y1))
        × AreWords middle
        × (length middle ≡ n + n + (n + n))
  middle_lem some =
      let (product0, words0, size0) = first in
      let (product1, words1, size1) = second in
      let fits =
        halves_fit n (value x0) (value x1) (value y0) (value y1) (half_lt x0 hx0) (half_lt x1 hx1)
          (half_lt y0 hy0) (half_lt y1 hy1) in
      let sums = ap₂ (λ a b. a + raised n (a + b) + raised (n + n) b) product0 product1 in
      let (total, words, size) =
        add_middle_lem n z0 z1 words0 words1 (omega (arith, size0, hx0.1, hy0.1))
          (omega (arith, size1, hx1.1, hy1.1)) some (omega (arith, sums, fits)) in
      (total ∙ sums, words, size)
    where
      half_lt : (a : List ℕ) → AreWords a × (length a ≡ n) → value a < raised n 1
      half_lt a (h, e) = omega (arith, value-lt a h, ap (λ k. raised k 1) e)

  -- The products of the halves and the one in the workspace, put together.
  pub whole :
      (s : Bool) (p : List ℕ)
      → 1 ≤ n
      → full < raised (n + n + (n + n)) 1
      → Signed s p (n + n) straight across
      → (value (add_product s n middle p) ≡ full)
        × AreWords (add_product s n middle p)
        × (length (add_product s n middle p) ≡ n + n + (n + n))
  whole true p some fits (hp, np, sum) =
      let (total, words, size) = middle_lem some in
      let parts = halves_product n (value x0) (value x1) (value y0) (value y1) in
      let spread = raised-add n straight (value p) in
      let exact : value middle + raised n (value p) ≡ full =
        omega (arith, total, parts, spread, ap (raised n) sum) in
      let (result, result_words, result_size) =
        add_product_adds n middle p words hp (omega (arith, size, np))
          (omega (arith, exact, fits, ap (λ k. raised k 1) size)) in
      (result ∙ exact, result_words, result_size ∙ size)
  whole false p some fits (hp, np, sum) =
      let (total, words, size) = middle_lem some in
      let parts = halves_product n (value x0) (value x1) (value y0) (value y1) in
      let spread = raised-add n across (value p) in
      let exact : value middle ≡ full + raised n (value p) =
        omega (arith, total, parts, spread, ap (raised n) sum) in
      let (result, result_words, result_size) =
        add_product_subtracts n middle p words hp (omega (arith, size, np)) full exact in
      (result, result_words, result_size ∙ size)

-- An array of `n + n` words in its halves.
pub halves_lem :
    (n : ℕ) (x : List ℕ)
    → AreWords x
    → length x ≡ n + n
    → (value x ≡ value (take n x) + raised n (value (drop n x)))
      × (AreWords (take n x) × (length (take n x) ≡ n))
      × (AreWords (drop n x) × (length (drop n x) ≡ n))
halves_lem n x h e =
    let (parts, low, high) = value_parts n x (omega arith) in
    (parts, (All-take IsU32 n x h, low), (All-drop IsU32 n x h, omega arith))

pub equal_left : (a b c d : ℕ) → a ≡ b → a * c + b * d ≡ a * d + b * c
equal_left a b c d e = rw e (omega arith)
