-- ===== src/Math/BigInt/Words.antt =====
-- math/bigint/bigint.h and bigint.cpp: the words that matter, and signs.
use php_botan.Base.{
  ℕ, zero, suc, ◌+◌, ◌-◌, ◌*◌, ◌^◌, ◌≤◌, ◌≡◌, ◌⊎◌, refl, sym, ap, ◌∙◌, arith, true, ◌&&◌, ltb, ◌==◌,
  ==_iff, Bool-cases, inl, inr, List, [], ◌∷◌, length, take, length-take, take_all, All-take,
}
use php_botan.Base.Words.{IsU32}
use php_botan.Math.Value.{AreWords, value, raised, raised-zero, raised-add, value-lt}
use php_botan.Math.Mp.Whole.{raised-le}
use php_botan.Math.Comba.Columns.{word_at}
use php_botan.Math.Multiply.Exact.{Matter}
use php_botan.Math.BigInt.{
  BigInt, Sign, positive, sig_loop, sig_words, all_zero, is_zero, set_sign, significant,
}

abbrev pub magnitude : BigInt → ℕ
magnitude b = value b.reg

above : (n v : ℕ) → 1 ≤ v → raised n 1 ≤ raised n v
above n zero h = absurd (omega arith)
above n (suc v) h =
    let s : suc v ≡ 1 + v = omega arith in omega (arith, ap (raised n) s, raised-add n 1 v)

take_next :
    (x : List ℕ) (n : ℕ) → value (take (suc n) x) ≡ value (take n x) + raised n (word_at x n)
unfolding value raised
take_next [] zero = refl
take_next [] (suc n) = omega (arith, raised-zero n)
take_next (a ∷ x) zero = omega arith
take_next (a ∷ x) (suc n) = omega (arith, take_next x n)

sig_loop_lem :
    (x : List ℕ) (n : ℕ) → (sig_loop x n ≤ n) × (value (take (sig_loop x n) x) ≡ value (take n x))
unfolding sig_loop
sig_loop_lem x zero = (omega arith, refl)
sig_loop_lem x (suc n) = elim (Bool-cases (word_at x n == 0)) [
  | inl none ↦
      let (le, e) = sig_loop_lem x n in
      let zero_word = (==_iff (word_at x n) 0).0 none in
      rw none (omega arith, omega (arith, e, take_next x n, ap (raised n) zero_word, raised-zero n))
  | inr some ↦ rw some (omega arith, refl)
]

-- The words that `sig_words` counts are those that matter.
pub sig_words-Matter : (b : BigInt) → Matter b.reg (sig_words b)
unfolding sig_words
sig_words-Matter b =
    let (le, e) = sig_loop_lem b.reg (length b.reg) in
    (le, e ∙ ap value (take_all (length b.reg) b.reg (omega arith)))

pub significant_lem :
    (b : BigInt)
    → AreWords b.reg
    → AreWords (significant b)
      × (value (significant b) ≡ magnitude b)
      × (length (significant b) ≡ sig_words b)
unfolding significant
significant_lem b h =
    let (le, e) = sig_words-Matter b in
    (All-take IsU32 (sig_words b) b.reg h, e, omega (arith, length-take (sig_words b) b.reg))

by_parts :
    (a : ℕ) (x : List ℕ)
    → (value x ≡ 0 → all_zero x ≡ true)
    → a + 2 ^ 32 * value x ≡ 0
    → (a == 0 && all_zero x) ≡ true
by_parts a x back e =
    let first : (a == 0) ≡ true = ground arith in
    let rest = back (omega arith) in rw (first, rest) refl

all_zero_lem : (x : List ℕ) → (all_zero x ≡ true → value x ≡ 0) × (value x ≡ 0 → all_zero x ≡ true)
unfolding all_zero value
all_zero_lem [] = (λ e. refl, λ e. refl)
all_zero_lem (a ∷ x) =
    let (there, back) = all_zero_lem x in (λ e. ground (arith, there), λ e. by_parts a x back e)

-- The highest of them is not zero.
sig_loop_high :
    (x : List ℕ) (n : ℕ)
    → (sig_loop x n ≡ 0) ⊎ (raised (sig_loop x n - 1) 1 ≤ value (take (sig_loop x n) x))
unfolding sig_loop
sig_loop_high x zero = inl refl
sig_loop_high x (suc n) = elim (Bool-cases (word_at x n == 0)) [
  | inl none ↦ rw none (sig_loop_high x n)
  | inr some ↦
      let e : suc n - 1 ≡ n = omega arith in
      let positive_word : 1 ≤ word_at x n = ground arith in
      rw some (
        inr (
          omega
            (arith, take_next x n, ap (λ m. raised m 1) e, above n (word_at x n) positive_word)))
]

-- The larger number has no fewer words.
pub sig_words-le :
    (x y : BigInt)
    → AreWords x.reg
    → AreWords y.reg
    → magnitude y ≤ magnitude x
    → sig_words y ≤ sig_words x
unfolding sig_words
sig_words-le x y hx hy le = by_top (sig_loop_high y.reg (length y.reg))
  where
    by_top :
        (sig_loop y.reg (length y.reg) ≡ 0)
          ⊎ (raised (sig_loop y.reg (length y.reg) - 1) 1
              ≤ value (take (sig_loop y.reg (length y.reg)) y.reg))
        → sig_loop y.reg (length y.reg) ≤ sig_loop x.reg (length x.reg)
    by_top (inl none) = omega arith
    by_top (inr top) =
        let n = sig_loop x.reg (length x.reg) in
        let m = sig_loop y.reg (length y.reg) in
        let (x_words, x_value, x_size) = significant_lem x hx in
        let (y_words, y_value, y_size) = significant_lem y hy in
        let (x_le, x_same) = sig_words-Matter x in
        let (y_le, y_same) = sig_words-Matter y in
        let below = value-lt (take n x.reg) (All-take IsU32 n x.reg hx) in
        let count : length (take n x.reg) ≡ n = omega (arith, length-take n x.reg, x_le) in
        elim (Bool-cases (ltb n m)) [
          | inl more ↦
              let step : n ≤ m - 1 = ground arith in
              absurd (
                omega (
                  arith,
                  top,
                  below,
                  x_same,
                  y_same,
                  raised-le n (m - 1) step,
                  ap (λ k. raised k 1) count,
                ))
          | inr fewer ↦ ground arith
        ]

is_zero_lem :
    (b : BigInt) → (is_zero b ≡ true → magnitude b ≡ 0) × (magnitude b ≡ 0 → is_zero b ≡ true)
unfolding is_zero
is_zero_lem b =
    let (le, e) = sig_words-Matter b in
    let (there, back) = all_zero_lem (take (sig_words b) b.reg) in
    (λ h. sym e ∙ there h, λ h. back (e ∙ h))

-- What `set_sign` does: zero has no sign.
pub set_sign_lem :
    (s : Sign) (b : BigInt)
    → ((set_sign s b).reg ≡ b.reg)
      × ((magnitude b ≡ 0 → (set_sign s b).signedness ≡ positive)
          × (1 ≤ magnitude b → (set_sign s b).signedness ≡ s))
unfolding set_sign
set_sign_lem s b =
    let (there, back) = is_zero_lem b in
    elim (Bool-cases (is_zero b)) [
      | inl none ↦ rw none (refl, (λ e. refl, λ le. absurd (omega (arith, le, there none))))
      | inr some ↦ rw some (refl, (λ e. absurd (grind (arith, sym some ∙ back e)), λ le. refl))
    ]
