-- ===== src/Math/Value.antt =====
-- The number that a list of words stands for, from the lowest word.
use php_botan.Base.{
  ℕ, zero, suc, ◌+◌, ◌*◌, ◌^◌, ◌<◌, ◌≡◌, refl, ap, ◌∙◌, arith, List, [], ◌∷◌, ◌++◌, length, All,
  replicate,
}
use php_botan.Base.Words.{IsU32}

abbrev pub AreWords : List ℕ → Type 0
AreWords xs = All IsU32 xs

unfoldable pub value : List ℕ → ℕ
value [] = 0
value (x ∷ xs) = x + 2 ^ 32 * value xs

-- `v` times the base `n` times.
unfoldable pub raised : ℕ → ℕ → ℕ
raised zero v = v
raised (suc n) v = 2 ^ 32 * raised n v

pub raised-add : (n a b : ℕ) → raised n (a + b) ≡ raised n a + raised n b
unfolding raised
raised-add zero a b = refl
raised-add (suc n) a b = omega (arith, raised-add n a b)

pub raised-zero : (n : ℕ) → raised n 0 ≡ 0
unfolding raised
raised-zero zero = refl
raised-zero (suc n) = omega (arith, raised-zero n)

pub raised-raised : (m n v : ℕ) → raised m (raised n v) ≡ raised (m + n) v
unfolding raised
raised-raised zero n v = ap (λ (k : ℕ). raised k v) (let e : n ≡ zero + n = omega arith in e)
raised-raised (suc m) n v =
    let e : suc (m + n) ≡ suc m + n = omega arith in
    ap (λ (t : ℕ). 2 ^ 32 * t) (raised-raised m n v) ∙ ap (λ (k : ℕ). raised k v) e

times_assoc : (a b v : ℕ) → a * b * v ≡ a * (b * v)
times_assoc a b v = grind arith

pub raised-times : (n v : ℕ) → raised n v ≡ raised n 1 * v
unfolding raised
raised-times zero v = omega arith
raised-times (suc n) v = omega (arith, raised-times n v, times_assoc (2 ^ 32) (raised n 1) v)

-- Where the sum is below a place, nothing of it stands from there on.
pub nothing_left : (n left total v : ℕ) → v + raised n left ≡ total → total < raised n 1 → v ≡ total
nothing_left n zero total v e h = omega (arith, raised-zero n)
nothing_left n (suc left) total v e h =
    let s : suc left ≡ 1 + left = omega arith in omega (arith, ap (raised n) s, raised-add n 1 left)

pub value-append : (xs ys : List ℕ) → value (xs ++ ys) ≡ value xs + raised (length xs) (value ys)
unfolding value raised
value-append [] ys = omega arith
value-append (x ∷ xs) ys = omega (arith, value-append xs ys)

pub value-zeros : (n : ℕ) → value (replicate n 0) ≡ 0
unfolding value
value-zeros zero = refl
value-zeros (suc n) = omega (arith, value-zeros n)

pub zeros-AreWords : (n : ℕ) → AreWords (replicate n 0)
zeros-AreWords zero = tt
zeros-AreWords (suc n) = (omega arith, zeros-AreWords n)

pub value-lt : (xs : List ℕ) → AreWords xs → value xs < raised (length xs) 1
unfolding value raised
value-lt [] h = omega arith
value-lt (x ∷ xs) (h, hs) = omega (arith, value-lt xs hs)
