-- ===== src/Math/Mp/Order.antt =====
-- Comparison of arrays.
use php_botan.Base.{
  ℕ, ◌+◌, ◌*◌, ◌^◌, ◌<◌, ◌≤◌, ◌≡◌, arith, List, [], ◌∷◌, length, Bool-cases, inl, inr, ltb, ◌==◌,
  if◌then◌else◌,
}
use php_botan.Base.Words.{IsU32}
use php_botan.Math.Value.{AreWords, value}
use php_botan.Math.Mp.{negated, cmp_words, bigint_cmp}
use Prim.Native.Nat.{Ordering}

-- What a result says of two numbers.
abbrev pub Decides : Ordering → ℕ → ℕ → Type 0
Decides Ordering.lt a b = a < b
Decides Ordering.eq a b = a ≡ b
Decides Ordering.gt a b = b < a

negated-Decides : (o : Ordering) (a b : ℕ) → Decides o a b → Decides (negated o) b a
unfolding negated
negated-Decides Ordering.lt a b h = h
negated-Decides Ordering.eq a b h = omega arith
negated-Decides Ordering.gt a b h = h

word-Decides :
    (o : Ordering) (x y a b : ℕ)
    → IsU32 x
    → IsU32 y
    → Decides o a b
    → Decides
        (elim o as (λ r. Ordering) [
          | Ordering.lt ↦ Ordering.lt
          | Ordering.gt ↦ Ordering.gt
          | Ordering.eq ↦
              if ltb y x then Ordering.gt else if ltb x y then Ordering.lt else Ordering.eq
        ])
        (x + 2 ^ 32 * a)
        (y + 2 ^ 32 * b)
word-Decides Ordering.lt x y a b h g d = omega arith
word-Decides Ordering.gt x y a b h g d = omega arith
word-Decides Ordering.eq x y a b h g d = elim (Bool-cases (ltb y x)) [
  | inl above ↦ rw above (ground arith)
  | inr other ↦ elim (Bool-cases (ltb x y)) [
    | inl below ↦ rw (other, below) (ground arith)
    | inr same ↦ rw (other, same) (ground arith)
  ]
]

top-Decides :
    (o : Ordering) (x a : ℕ)
    → Decides o a 0
    → Decides
        (elim o as (λ r. Ordering) [
          | Ordering.gt ↦ Ordering.gt
          | _ ↦ if x == 0 then Ordering.eq else Ordering.gt
        ])
        (x + 2 ^ 32 * a)
        0
top-Decides Ordering.lt x a d = absurd (omega arith)
top-Decides Ordering.gt x a d = omega arith
top-Decides Ordering.eq x a d = elim (Bool-cases (x == 0)) [
  | inl none_here ↦ rw none_here (ground arith)
  | inr some_here ↦ rw some_here (ground arith)
]

cmp_words-Decides :
    (x y : List ℕ)
    → AreWords x
    → AreWords y
    → length y ≤ length x
    → Decides (cmp_words x y) (value x) (value y)
unfolding cmp_words value
cmp_words-Decides [] [] h g le = omega arith
cmp_words-Decides [] (y ∷ ys) h g le = absurd (omega arith)
cmp_words-Decides (x ∷ xs) [] (h, hs) g le =
    top-Decides (cmp_words xs []) x (value xs) (cmp_words-Decides xs [] hs tt (omega arith))
cmp_words-Decides (x ∷ xs) (y ∷ ys) (h, hs) (g, gs) le =
    word-Decides (cmp_words xs ys) x y (value xs) (value ys) h g
      (cmp_words-Decides xs ys hs gs (omega arith))

-- For two arrays of words of whatever sizes, bigint_cmp says how the numbers compare.
pub bigint_cmp-Decides :
    (x y : List ℕ) → AreWords x → AreWords y → Decides (bigint_cmp x y) (value x) (value y)
unfolding bigint_cmp
bigint_cmp-Decides x y h g = elim (Bool-cases (ltb (length x) (length y))) [
  | inl shorter ↦ rw shorter (
      negated-Decides (cmp_words y x) (value y) (value x)
        (cmp_words-Decides y x g h (ground arith)))
  | inr longer ↦ rw longer (cmp_words-Decides x y h g (ground arith))
]
