-- ===== src/Math/Karatsuba/Join.antt =====
-- How math/bigint/mp_karat.cpp joins the products of the halves.
use php_botan.Base.{
  ℕ, ◌+◌, ◌-◌, ◌/◌, ◌<◌, ◌≤◌, ◌≡◌, refl, sym, ap, ap₂, ◌∙◌, arith, ◌==◌, ==_iff, Bool-cases, inl,
  inr, List, [], ◌∷◌, ◌++◌, length, take, drop, length-take, length-drop, length-append,
  take-append-drop, All-take, All-drop, All-append,
}
use php_botan.Base.Words.{IsU32}
use php_botan.Math.Word.{word_add, word_add_lem}
use php_botan.Math.Value.{
  AreWords, value, raised, raised-add, raised-zero, raised-raised, nothing_left, value-append,
}
use php_botan.Math.Carry.{carry_loop, eights, eights-carry_loop, length-carry_loop, carry_loop-adds}
use php_botan.Math.Mp.{pairs, add_pair, increment}
use php_botan.Math.Mp.Pairs.{ArePair, both, pairs-ArePair, length-pairs, value-both, add_pair-Adds}
use php_botan.Math.Mp.Sums.{increment_lem, length-increment}
use php_botan.Math.Karatsuba.{top_carry, add_middle}

-- Two arrays of one size, added in blocks.
block_sum :
    (k : ℕ) (xs ys : List ℕ)
    → AreWords xs
    → AreWords ys
    → length xs ≡ length ys
    → (value (eights add_pair k 0 (pairs xs ys)).0
          + raised (length ys) (eights add_pair k 0 (pairs xs ys)).1
        ≡ value xs + value ys)
      × AreWords (eights add_pair k 0 (pairs xs ys)).0
      × ((eights add_pair k 0 (pairs xs ys)).1 ≤ 1)
      × (length (eights add_pair k 0 (pairs xs ys)).0 ≡ length ys)
block_sum k xs ys hx hy same =
    let (sum, words, carry) =
      carry_loop-adds add_pair both ArePair 1 add_pair-Adds 0 (pairs xs ys)
        (pairs-ArePair xs ys hx hy) (omega arith) in
    rw (eights-carry_loop add_pair k 0 (pairs xs ys)) (
      omega (
        arith,
        sum,
        ap (λ n. raised n (carry_loop add_pair 0 (pairs xs ys)).1) (length-pairs xs ys same),
        value-both xs ys same,
      ),
      words,
      carry,
      length-carry_loop add_pair 0 (pairs xs ys) ∙ length-pairs xs ys same,
    )

-- The carries that go into the highest words.
top_carry_lem :
    (c2 c : ℕ) (ts : List ℕ)
    → c2 ≤ 1
    → c ≤ 1
    → AreWords ts
    → 1 ≤ length ts
    → (over : ℕ) × (value (top_carry c2 c ts) + raised (length ts) over ≡ value ts + c2 + c)
      × AreWords (top_carry c2 c ts)
      × (length (top_carry c2 c ts) ≡ length ts)
unfolding top_carry value raised
top_carry_lem c2 c [] h g ws n = absurd (omega arith)
top_carry_lem c2 c (t ∷ ts) h g (w, ws) n =
    let (sum, word, most) = word_add_lem t c2 c w (omega arith) g in
    let (more, words) = increment_lem ts ws in
    elim (Bool-cases ((word_add t c2 c).1 == 0)) [
      | inl done ↦
          let e : (word_add t c2 c).1 ≡ 0 = (==_iff (word_add t c2 c).1 0).0 done in
          rw done (0, omega (arith, sum, e, raised-zero (length ts)), (word, ws), refl)
      | inr on ↦
          let e : (word_add t c2 c).1 ≡ 1 = ground (arith, most, on) in
          rw on (
            (increment ts).1,
            omega (arith, sum, e, more),
            (word, words),
            omega (arith, length-increment ts),
          )
    ]

-- A number is its part below a place and the part from there on.
pub value_parts :
    (n : ℕ) (z : List ℕ)
    → n ≤ length z
    → (value z ≡ value (take n z) + raised n (value (drop n z)))
      × (length (take n z) ≡ n)
      × (length (drop n z) ≡ length z - n)
value_parts n z le =
    let size : length (take n z) ≡ n = omega (arith, length-take n z) in
    (
      ap value (sym (take-append-drop n z))
          ∙ value-append (take n z) (drop n z)
          ∙ ap (λ k. value (take n z) + raised k (value (drop n z))) size,
      size,
      length-drop n z,
    )

value_three :
    (m n : ℕ) (a b c : List ℕ)
    → length a ≡ m
    → length b ≡ n
    → value (a ++ (b ++ c)) ≡ value a + raised m (value b + raised n (value c))
value_three m n a b c e g =
    value-append a (b ++ c)
    ∙ ap₂ (λ k v. value a + raised k v) e
        (value-append b c ∙ ap (λ k. value b + raised k (value c)) g)

middle_numbers :
    (m z0 z1 low b d s mid d' c c2 over : ℕ)
    → z0 + raised (m + m) z1 ≡ low + raised m (b + raised (m + m) d)
    → s + raised (m + m) c ≡ z0 + z1
    → mid + raised (m + m) c2 ≡ b + s
    → d' + raised m over ≡ d + c2 + c
    → z0 + raised m (z0 + z1) + raised (m + m) z1 < raised (m + m + (m + m)) 1
    → low + raised m (mid + raised (m + m) d') ≡ z0 + raised m (z0 + z1) + raised (m + m) z1
middle_numbers m z0 z1 low b d s mid d' c c2 over parts sums mids tops fits =
    let at = m + (m + m) in
    let e : at + m ≡ m + m + (m + m) = omega arith in
    nothing_left (m + m + (m + m)) over (z0 + raised m (z0 + z1) + raised (m + m) z1)
      (low + raised m (mid + raised (m + m) d'))
      (omega (
        arith,
        parts,
        raised-add m b (raised (m + m) d),
        raised-add m mid (raised (m + m) d'),
        raised-raised m (m + m) d,
        raised-raised m (m + m) d',
        raised-add m s (raised (m + m) c),
        raised-raised m (m + m) c,
        ap (raised m) sums,
        raised-add m mid (raised (m + m) c2),
        raised-raised m (m + m) c2,
        ap (raised m) mids,
        raised-add m b s,
        raised-add at d' (raised m over),
        ap (raised at) tops,
        raised-add at (d + c2) c,
        raised-add at d c2,
        raised-raised at m over,
        ap (λ k. raised k over) e,
      ))
      fits

-- What is added to the words from `n2` on, where the sum fits.
module _ (n2 : ℕ) (z0 z1 : List ℕ) (h0 : AreWords z0) (h1 : AreWords z1) (s0 : length z0 ≡ n2 + n2)
    (s1 : length z1 ≡ n2 + n2) (some : 1 ≤ n2)
    (fits : value z0 + raised n2 (value z0 + value z1) + raised (n2 + n2) (value z1)
      < raised (n2 + n2 + (n2 + n2)) 1) where
  abbrev n : ℕ
  n = length z0

  abbrev z : List ℕ
  z = z0 ++ z1

  abbrev sum : List ℕ × ℕ
  sum = eights add_pair (n / 8) 0 (pairs z0 z1)

  abbrev second : List ℕ × ℕ
  second = eights add_pair (n / 8) 0 (pairs (take n (drop n2 z)) sum.0)

  z-AreWords : AreWords z
  z-AreWords = All-append IsU32 z0 z1 h0 h1

  pub add_middle_lem :
      (value (add_middle n2 z0 z1)
        ≡ value z0 + raised n2 (value z0 + value z1) + raised (n2 + n2) (value z1))
      × AreWords (add_middle n2 z0 z1)
      × (length (add_middle n2 z0 z1) ≡ n2 + n2 + (n2 + n2))
  unfolding add_middle
  add_middle_lem =
      let size = length-append z0 z1 in
      let words = z-AreWords in
      let (low, low_size, rest_size) = value_parts n2 z (omega (arith, size)) in
      let (mid, mid_size, top_size) = value_parts n (drop n2 z) (omega (arith, size, rest_size)) in
      let rest_words = All-drop IsU32 n2 z words in
      let (total, sum_words, carry, count) = block_sum (n / 8) z0 z1 h0 h1 (omega arith) in
      let (total2, sum_words2, carry2, count2) =
        block_sum (n / 8) (take n (drop n2 z)) sum.0 (All-take IsU32 n (drop n2 z) rest_words)
          sum_words (omega (arith, mid_size, count)) in
      let (over, top, top_words, top_count) =
        top_carry_lem second.1 sum.1 (drop n (drop n2 z)) carry2 carry
          (All-drop IsU32 n (drop n2 z) rest_words) (omega (arith, top_size, rest_size, size)) in
      let result = top_carry second.1 sum.1 (drop n (drop n2 z)) in
      let counted : length sum.0 ≡ n2 + n2 = omega (arith, count, s1) in
      let highest : length (drop n (drop n2 z)) ≡ n2 = omega (arith, top_size, rest_size, size) in
      let numbers =
        middle_numbers n2 (value z0) (value z1) (value (take n2 z)) (value (take n (drop n2 z)))
          (value (drop n (drop n2 z))) (value sum.0) (value second.0)
          (value (top_carry second.1 sum.1 (drop n (drop n2 z)))) sum.1 second.1 over
          (sym (value-append z0 z1 ∙ ap (λ k. value z0 + raised k (value z1)) s0)
            ∙ low
            ∙ ap (λ v. value (take n2 z) + raised n2 v)
                (mid
                  ∙ ap (λ k. value (take n (drop n2 z)) + raised k (value (drop n (drop n2 z))))
                      s0))
          (omega (arith, total, ap (λ k. raised k sum.1) s1))
          (omega (arith, total2, ap (λ k. raised k second.1) counted))
          (omega (arith, top, ap (λ k. raised k over) highest)) fits in
      (
        value_three n2 (n2 + n2) (take n2 z) second.0 result low_size
              (omega (arith, count2, counted))
            ∙ numbers,
        All-append IsU32 (take n2 z) (second.0 ++ result) (All-take IsU32 n2 z words)
            (All-append IsU32 second.0 result sum_words2 top_words),
        omega (
          arith,
          length-append (take n2 z) (second.0 ++ result),
          length-append second.0 result,
          low_size,
          count2,
          counted,
          top_count,
          highest,
        ),
      )
