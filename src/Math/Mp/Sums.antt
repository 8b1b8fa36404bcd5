-- ===== src/Math/Mp/Sums.antt =====
-- What the sums of arrays are made of: the words that both arrays have, and the carry behind them.
use php_botan.Base.{
  ℕ, suc, ◌+◌, ◌*◌, ◌/◌, ◌^◌, ◌≤◌, ◌≡◌, refl, sym, ap, ◌∙◌, arith, List, [], ◌∷◌, ◌++◌, length, All,
  take, drop, length-take, length-drop, take-append-drop, All-take, All-drop, Bool-cases, inl, inr,
  true, false, not, ◌&&◌, ◌==◌, if◌then◌else◌,
}
use php_botan.Base.Words.{IsU32, u32}
use php_botan.Math.Value.{
  AreWords, value, raised, raised-add, raised-zero, raised-raised, value-append,
}
use php_botan.Math.Carry.{
  carry_loop, eights, eights-carry_loop, length-carry_loop, carry_loop-adds, carry_loop-subtracts,
}
use php_botan.Math.Mp.{pairs, add_pair, sub_pair, increment, add_carry}
use php_botan.Math.Mp.Pairs.{
  ArePair, left, right, both, pairs-ArePair, length-pairs, map-left, map-right, value-both,
  add_pair-Adds, sub_pair-Subtracts,
}

pub increment_lem :
    (xs : List ℕ)
    → AreWords xs
    → (value (increment xs).0 + raised (length xs) (increment xs).1 ≡ value xs + 1)
      × AreWords (increment xs).0
unfolding increment value raised
increment_lem [] h = (omega arith, tt)
increment_lem (x ∷ xs) (h, hs) = ground (arith, increment_lem xs hs, raised-zero (length xs))

pub length-increment : (xs : List ℕ) → length (increment xs).0 ≡ length xs
unfolding increment
length-increment [] = refl
length-increment (x ∷ xs) = elim (Bool-cases (u32 (x + 1) == 0)) [
  | inl on ↦ rw on (ap suc (length-increment xs))
  | inr stop ↦ rw stop refl
]

pub length-add_carry : (c : ℕ) (xs : List ℕ) → length (add_carry c xs).0 ≡ length xs
unfolding add_carry
length-add_carry c [] = refl
length-add_carry c (x ∷ xs) =
    ap suc (length-add_carry (if not (c == 0) && not (u32 (x + c) == 0) then 0 else c) xs)

pub add_carry_lem :
    (c : ℕ) (xs : List ℕ)
    → c ≤ 1
    → AreWords xs
    → (value (add_carry c xs).0 + raised (length xs) (add_carry c xs).1 ≡ value xs + c)
      × AreWords (add_carry c xs).0
unfolding add_carry value raised
add_carry_lem c [] g h = (omega arith, tt)
add_carry_lem c (x ∷ xs) g (h, hs) = elim (Bool-cases (not (c == 0) && not (u32 (x + c) == 0))) [
  | inl stop ↦
      let rest = add_carry_lem 0 xs (omega arith) hs in
      rw stop (omega (arith, rest.0, carry_stops stop), (omega arith, rest.1))
  | inr on ↦
      let rest = add_carry_lem c xs g hs in
      rw on (omega (arith, rest.0, carry_goes on), (omega arith, rest.1))
]
  where
    carry_stops : (not (c == 0) && not (u32 (x + c) == 0)) ≡ true → u32 (x + c) ≡ x + c
    carry_stops e = ground arith

    carry_goes : (not (c == 0) && not (u32 (x + c) == 0)) ≡ false → u32 (x + c) + 2 ^ 32 * c ≡ x + c
    carry_goes e = ground arith

-- The value of a low and a high part that a carry joins.
join_sums :
    (m k z zh x xh y c t : ℕ)
    → z + raised m c ≡ x + y
    → zh + raised k t ≡ xh + c
    → z + raised m zh + raised (m + k) t ≡ x + raised m xh + y
join_sums m k z zh x xh y c t low high = omega (
  arith,
  raised-raised m k t,
  raised-add m zh (raised k t),
  raised-add m xh c,
  ap (raised m) high,
)

-- The words below the size of `y`.
module _ (x y : List ℕ) (hx : AreWords x) (hy : AreWords y) (le : length y ≤ length x) where
  unfoldable pub low_x : List ℕ
  low_x = take (length y) x

  unfoldable pub high_x : List ℕ
  high_x = drop (length y) x

  same_length : length low_x ≡ length y
  unfolding low_x
  same_length = omega (arith, length-take (length y) x)

  pub parts_of_x : value x ≡ value low_x + raised (length y) (value high_x)
  unfolding low_x high_x
  parts_of_x =
      ap value (sym (take-append-drop (length y) x))
      ∙ value-append (take (length y) x) (drop (length y) x)
      ∙ ap (λ (n : ℕ). value (take (length y) x) + raised n (value (drop (length y) x))) same_length

  pub high_words : AreWords high_x
  unfolding high_x
  high_words = All-drop IsU32 (length y) x hx

  pub size_of_x : length x ≡ length y + length high_x
  unfolding high_x
  size_of_x = omega (arith, length-drop (length y) x)

  columns-ArePair : All ArePair (pairs low_x y)
  unfolding low_x
  columns-ArePair = pairs-ArePair (take (length y) x) y (All-take IsU32 (length y) x hx) hy

  unfoldable pub low_sum : List ℕ × ℕ
  unfolding low_x
  low_sum = eights add_pair (length y / 8) 0 (pairs (take (length y) x) y)

  pub length-low_sum : length low_sum.0 ≡ length y
  unfolding low_sum
  length-low_sum =
      ap (λ (r : List ℕ × ℕ). length r.0)
        (eights-carry_loop add_pair (length y / 8) 0 (pairs low_x y))
      ∙ length-carry_loop add_pair 0 (pairs low_x y)
      ∙ length-pairs low_x y same_length

  pub low_sum_lem :
      (value low_sum.0 + raised (length y) low_sum.1 ≡ value low_x + value y)
      × AreWords low_sum.0
      × (low_sum.1 ≤ 1)
  unfolding low_sum
  low_sum_lem =
      let sums =
        carry_loop-adds add_pair both ArePair 1 add_pair-Adds 0 (pairs low_x y) columns-ArePair
          (omega arith) in
      let sized =
        ap (λ (n : ℕ). raised n (carry_loop add_pair 0 (pairs low_x y)).1)
          (length-pairs low_x y same_length) in
      rw (eights-carry_loop add_pair (length y / 8) 0 (pairs low_x y))
        (omega (arith, sums.0, sized, value-both low_x y same_length), sums.1, sums.2)

  unfoldable pub low_difference : List ℕ × ℕ
  unfolding low_x
  low_difference = eights sub_pair (length y / 8) 0 (pairs (take (length y) x) y)

  pub length-low_difference : length low_difference.0 ≡ length y
  unfolding low_difference
  length-low_difference =
      ap (λ (r : List ℕ × ℕ). length r.0)
        (eights-carry_loop sub_pair (length y / 8) 0 (pairs low_x y))
      ∙ length-carry_loop sub_pair 0 (pairs low_x y)
      ∙ length-pairs low_x y same_length

  pub low_difference_lem :
      (value low_difference.0 + value y ≡ value low_x + raised (length y) low_difference.1)
      × AreWords low_difference.0
      × (low_difference.1 ≤ 1)
  unfolding low_difference
  low_difference_lem =
      let sums =
        carry_loop-subtracts sub_pair left right ArePair sub_pair-Subtracts 0 (pairs low_x y)
          columns-ArePair (omega arith) in
      let sized =
        ap (λ (n : ℕ). raised n (carry_loop sub_pair 0 (pairs low_x y)).1)
          (length-pairs low_x y same_length) in
      rw (eights-carry_loop sub_pair (length y / 8) 0 (pairs low_x y)) (
        omega (
          arith,
          sums.0,
          sized,
          ap value (map-left low_x y same_length),
          ap value (map-right low_x y same_length),
        ),
        sums.1,
        sums.2,
      )

  pub joined :
      (zh : List ℕ) (t : ℕ)
      → value zh + raised (length high_x) t ≡ value high_x + low_sum.1
      → value (low_sum.0 ++ zh) + raised (length x) t ≡ value x + value y
  joined zh t high = omega (
    arith,
    value-append low_sum.0 zh,
    ap (λ (n : ℕ). raised n (value zh)) length-low_sum,
    ap (λ (n : ℕ). raised n t) size_of_x,
    parts_of_x,
    join_sums (length y) (length high_x) (value low_sum.0) (value zh) (value low_x) (value high_x)
        (value y) low_sum.1 t low_sum_lem.0 high,
  )
