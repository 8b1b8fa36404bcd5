-- ===== src/Utils/BitOps/Lowest.antt =====
-- The lowest set bit of a word, as `ctz` and `low_bit` find it.
use php_botan.Base.{
  ℕ, zero, suc, ◌+◌, ◌*◌, ◌/◌, ◌%◌, ◌^◌, ◌<◌, ◌≡◌, ◌⊎◌, inl, inr, refl, sym, ap, ◌∙◌, arith,
  Bool-cases, bit_and, ◌==◌,
}
use native.Mathlib.Nat.{mul_comm, mul_assoc, mul-div_left, pow-suc, one-le-pow}
use php_botan.Base.Bits.{bit_and_mask}
use php_botan.Utils.BitOps.{low_bit, ctz, low_from, ctz_from}

-- `z` and `l` are what `ctz` and `low_bit` mean to return for `n`.
abbrev pub IsLowest : ℕ → ℕ → ℕ → Type 0
IsLowest n z l =
    ((n ≡ 0) × (z ≡ 32) × (l ≡ 0))
    ⊎ ((z < 32) × ((q : ℕ) × (n ≡ 2 ^ z * (2 * q + 1))) × (l ≡ z + 1))

-- The test of both loops at bit `i` of a multiple of `2 ^ i`.
bit_test : (i m : ℕ) → bit_and (2 ^ i * m / 2 ^ i) 0x01 ≡ m % 2
bit_test i m =
    bit_and_mask 1 (2 ^ i * m / 2 ^ i)
    ∙ ap (λ (k : ℕ). k % 2)
        (ap (λ (k : ℕ). k / 2 ^ i) (mul_comm (2 ^ i) m)
          ∙ mul-div_left m (one-le-pow i 2 (omega arith)))

next_power : (i m : ℕ) → 2 ^ i * (2 * m) ≡ 2 ^ (i + 1) * m
next_power i m =
    let e : suc i ≡ i + 1 = omega arith in
    sym (mul_assoc (2 ^ i) 2 m)
    ∙ ap (λ (k : ℕ). k * m) (sym (pow-suc 2 i) ∙ ap (λ (k : ℕ). 2 ^ k) e)

loops-IsLowest :
    (k i n m : ℕ)
    → i + k ≡ 32
    → n ≡ 2 ^ i * m
    → m < 2 ^ k
    → IsLowest n (ctz_from k i n) (low_from k i n)
unfolding low_from ctz_from
loops-IsLowest zero i n m e split h =
    let none : m ≡ 0 = omega arith in
    let nothing : 2 ^ i * 0 ≡ 0 = omega arith in
    inl (split ∙ ap (λ (k : ℕ). 2 ^ i * k) none ∙ nothing, refl, refl)
loops-IsLowest (suc k) i n m e split h = elim (Bool-cases (m % 2 == 0)) [
  | inl even ↦
      let parts : m ≡ 2 * (m / 2) = ground arith in
      let half = split ∙ ap (λ (k : ℕ). 2 ^ i * k) parts ∙ next_power i (m / 2) in
      rw (test, even) (loops-IsLowest k (i + 1) n (m / 2) (omega arith) half (omega arith))
  | inr odd ↦
      let parts : m ≡ 2 * (m / 2) + 1 = ground arith in
      rw (test, odd) (inr (omega arith, (m / 2, split ∙ ap (λ (k : ℕ). 2 ^ i * k) parts), refl))
]
  where
    test : bit_and (n / 2 ^ i) 0x01 ≡ m % 2
    test = ap (λ (k : ℕ). bit_and (k / 2 ^ i) 0x01) split ∙ bit_test i m

-- For a word below 2^32, either it is 0 and then ctz returns 32 and low_bit 0, or ctz returns the z
-- below 32 such that the word is an odd multiple of 2^z, and low_bit returns z + 1.
pub ctz-IsLowest : (n : ℕ) → n < 2 ^ 32 → IsLowest n (ctz n) (low_bit n)
unfolding low_bit ctz
ctz-IsLowest n h = loops-IsLowest 32 0 n n refl (omega arith) h
