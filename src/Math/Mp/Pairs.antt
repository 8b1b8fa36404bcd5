-- ===== src/Math/Mp/Pairs.antt =====
-- Two arrays of one length, word by word.
use php_botan.Base.{
  ℕ, suc, ◌+◌, ◌-◌, ◌*◌, ◌^◌, ◌≡◌, refl, ap, arith, List, [], ◌∷◌, map, length, All,
}
use php_botan.Base.Words.{IsU32}
use php_botan.Math.Value.{AreWords, value}
use php_botan.Math.Word.{word_add_lem, word_sub_lem, word_madd2, word_madd2_lem, word_madd3_lem}
use php_botan.Math.Carry.{Adds, Subtracts}
use php_botan.Math.Mp.{pairs, add_pair, sub_pair, madd_pair}

abbrev pub ArePair : ℕ × ℕ → Type 0
ArePair p = IsU32 p.0 × IsU32 p.1

abbrev pub left : ℕ × ℕ → ℕ
left p = p.0

abbrev pub right : ℕ × ℕ → ℕ
right p = p.1

abbrev pub both : ℕ × ℕ → ℕ
both p = p.0 + p.1

pub pairs-ArePair : (xs ys : List ℕ) → AreWords xs → AreWords ys → All ArePair (pairs xs ys)
pairs-ArePair [] ys h g = tt
pairs-ArePair (x ∷ xs) [] h g = tt
pairs-ArePair (x ∷ xs) (y ∷ ys) (h, hs) (g, gs) = ((h, g), pairs-ArePair xs ys hs gs)

pub length-pairs : (xs ys : List ℕ) → length xs ≡ length ys → length (pairs xs ys) ≡ length ys
length-pairs [] [] e = refl
length-pairs [] (y ∷ ys) e = absurd (omega arith)
length-pairs (x ∷ xs) [] e = absurd (omega arith)
length-pairs (x ∷ xs) (y ∷ ys) e = ap suc (length-pairs xs ys (omega arith))

pub map-left : (xs ys : List ℕ) → length xs ≡ length ys → map left (pairs xs ys) ≡ xs
map-left [] [] e = refl
map-left [] (y ∷ ys) e = absurd (omega arith)
map-left (x ∷ xs) [] e = absurd (omega arith)
map-left (x ∷ xs) (y ∷ ys) e = ap (λ t. x ∷ t) (map-left xs ys (omega arith))

pub map-right : (xs ys : List ℕ) → length xs ≡ length ys → map right (pairs xs ys) ≡ ys
map-right [] [] e = refl
map-right [] (y ∷ ys) e = absurd (omega arith)
map-right (x ∷ xs) [] e = absurd (omega arith)
map-right (x ∷ xs) (y ∷ ys) e = ap (λ t. y ∷ t) (map-right xs ys (omega arith))

pub value-both :
    (xs ys : List ℕ) → length xs ≡ length ys → value (map both (pairs xs ys)) ≡ value xs + value ys
unfolding value
value-both [] [] e = refl
value-both [] (y ∷ ys) e = absurd (omega arith)
value-both (x ∷ xs) [] e = absurd (omega arith)
value-both (x ∷ xs) (y ∷ ys) e = omega (arith, value-both xs ys (omega arith))

-- `x * y + z`, for the word `y`.
abbrev pub row : ℕ → ℕ × ℕ → ℕ
row y p = p.0 * y + p.1

pub value_times : (y : ℕ) (x v : ℕ) → (x + 2 ^ 32 * v) * y ≡ x * y + 2 ^ 32 * (v * y)
value_times y x v = grind arith

pub value-row :
    (y : ℕ) (xs zs : List ℕ)
    → length xs ≡ length zs
    → value (map (row y) (pairs xs zs)) ≡ value xs * y + value zs
unfolding value
value-row y [] [] e = omega arith
value-row y [] (z ∷ zs) e = absurd (omega arith)
value-row y (x ∷ xs) [] e = absurd (omega arith)
value-row y (x ∷ xs) (z ∷ zs) e =
    omega (arith, value-row y xs zs (omega arith), value_times y x (value xs))

pub value_scaled : (y : ℕ) (xs : List ℕ) → value (map (λ x. x * y) xs) ≡ value xs * y
unfolding value
value_scaled y [] = omega arith
value_scaled y (x ∷ xs) = omega (arith, value_scaled y xs, value_times y x (value xs))

pub add_pair-Adds : Adds add_pair both ArePair 1
add_pair-Adds (x, y) c (h, g) k = word_add_lem x y c h g k

pub sub_pair-Subtracts : Subtracts sub_pair left right ArePair
sub_pair-Subtracts (x, y) c (h, g) k = word_sub_lem x y c h g k

pub madd_pair-Adds : (y : ℕ) → IsU32 y → Adds (madd_pair y) (row y) ArePair (2 ^ 32 - 1)
madd_pair-Adds y l (x, z) c (h, g) k =
    let m = word_madd3_lem x y z c h l g (omega arith) in (m.0, m.1, omega (arith, m.2))

pub madd2-Adds : (y : ℕ) → IsU32 y → Adds (λ a c. word_madd2 a y c) (λ x. x * y) IsU32 (2 ^ 32 - 1)
madd2-Adds y l x c h k =
    let m = word_madd2_lem x y c h l (omega arith) in (m.0, m.1, omega (arith, m.2))
