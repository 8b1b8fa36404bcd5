-- ===== src/Math/Karatsuba/Numbers.antt =====
-- The arithmetic of the method of math/bigint/mp_karat.cpp.
use php_botan.Base.{ℕ, ◌+◌, ◌-◌, ◌*◌, ◌<◌, ◌≤◌, ◌≡◌, sym, ap, ap₂, ◌∙◌, arith}
use native.Mathlib.Nat.{mul-le-mul}
use php_botan.Math.Value.{raised, raised-raised, raised-times}

expand :
    (m x0 x1 y0 y1 : ℕ)
    → (x0 + m * x1) * (y0 + m * y1) ≡ x0 * y0 + m * (x0 * y1 + x1 * y0) + m * (m * (x1 * y1))
expand m x0 x1 y0 y1 = grind arith

-- The product of two numbers by their halves.
pub halves_product :
    (n x0 x1 y0 y1 : ℕ)
    → (x0 + raised n x1) * (y0 + raised n y1)
      ≡ x0 * y0 + raised n (x0 * y1 + x1 * y0) + raised (n + n) (x1 * y1)
halves_product n x0 x1 y0 y1 =
    ap₂ (λ a b. (x0 + a) * (y0 + b)) (raised-times n x1) (raised-times n y1)
    ∙ expand (raised n 1) x0 x1 y0 y1
    ∙ ap₂ (λ a b. x0 * y0 + a + b) (sym (raised-times n (x0 * y1 + x1 * y0)))
        (ap (λ v. raised n 1 * v) (sym (raised-times n (x1 * y1)))
          ∙ sym (raised-times n (raised n (x1 * y1)))
          ∙ raised-raised n n (x1 * y1))

-- Where the products of the halves differ from the products across.
pub same_signs : (x y d e : ℕ) → (x + d) * y + x * (y + e) + d * e ≡ (x + d) * (y + e) + x * y
same_signs x y d e = grind arith

square_plus : (u : ℕ) → u * u < (u + 1) * (u + 1)
square_plus u = let e : (u + 1) * (u + 1) ≡ u * u + 2 * u + 1 = grind arith in omega (arith, e)

at_most :
    (k : ℕ)
    → k * k + (k + 1) * (k * k + k * k) + (k + 1) * ((k + 1) * (k * k))
      ≡ (k * (k + 2)) * (k * (k + 2))
at_most k = grind arith

fourth : (k : ℕ) → (k * (k + 2) + 1) * (k * (k + 2) + 1) ≡ (k + 1) * ((k + 1) * ((k + 1) * (k + 1)))
fourth k = grind arith

below_square : (k a b : ℕ) → a < k + 1 → b < k + 1 → a * b ≤ k * k
below_square k a b h g =
    let x : a ≤ k = omega arith in let y : b ≤ k = omega arith in mul-le-mul x y

middle_below :
    (k a b : ℕ)
    → a ≤ k * k
    → b ≤ k * k
    → a + (k + 1) * (a + b) + (k + 1) * ((k + 1) * b) < (k + 1) * ((k + 1) * ((k + 1) * (k + 1)))
middle_below k a b h g =
    let one : k + 1 ≤ k + 1 = omega arith in
    let sums : a + b ≤ k * k + k * k = omega arith in
    let first = mul-le-mul one sums in
    let second = mul-le-mul one (mul-le-mul one g) in
    omega (arith, at_most k, fourth k, square_plus (k * (k + 2)), first, second)

raised_twice : (n v : ℕ) → raised (n + n) v ≡ raised n 1 * (raised n 1 * v)
raised_twice n v =
    sym (raised-raised n n v)
    ∙ raised-times n (raised n v)
    ∙ ap (λ a. raised n 1 * a) (raised-times n v)

raised_four :
    (n : ℕ) → raised (n + n + (n + n)) 1 ≡ raised n 1 * (raised n 1 * (raised n 1 * raised n 1))
raised_four n =
    sym (raised-raised (n + n) (n + n) 1)
    ∙ ap (raised (n + n)) (raised_twice n 1)
    ∙ raised_twice n (raised n 1 * (raised n 1 * 1))
    ∙ (let e : raised n 1 * 1 ≡ raised n 1 = omega arith in
        ap (λ a. raised n 1 * (raised n 1 * (raised n 1 * a))) e)

-- The sum of both products, at the middle, fits.
pub halves_fit :
    (n x0 x1 y0 y1 : ℕ)
    → x0 < raised n 1
    → x1 < raised n 1
    → y0 < raised n 1
    → y1 < raised n 1
    → x0 * y0 + raised n (x0 * y0 + x1 * y1) + raised (n + n) (x1 * y1) < raised (n + n + (n + n)) 1
halves_fit n x0 x1 y0 y1 h0 h1 g0 g1 =
    let k = raised n 1 - 1 in
    let e : raised n 1 ≡ k + 1 = omega arith in
    let a = below_square k x0 y0 (omega arith) (omega arith) in
    let b = below_square k x1 y1 (omega arith) (omega arith) in
    let scaled = raised-times n (x0 * y0 + x1 * y1) ∙ ap (λ m. m * (x0 * y0 + x1 * y1)) e in
    let twice = raised_twice n (x1 * y1) ∙ ap (λ m. m * (m * (x1 * y1))) e in
    let four = raised_four n ∙ ap (λ m. m * (m * (m * m))) e in
    omega (arith, scaled, twice, four, middle_below k (x0 * y0) (x1 * y1) a b)
