-- ===== src/Base/Bits.antt =====
-- Laws of the bit operations at variables: the lowest digit, disjoint fields, masks, and `^`.
use Prim.Native.Nat.{
  ℕ, zero, suc, ◌+◌, ◌*◌, ◌/◌, ◌%◌, ◌^◌, ◌-◌, ◌≤◌, ◌<◌, min, max, differ, bit_and, bit_or, bit_xor,
  digits, bitwise, bit_and-bitwise, bit_or-bitwise, bit_xor-bitwise,
}
use mathlib.Core.Path.{◌≡◌, refl, sym, ap, ◌∙◌}
use native.Mathlib.Nat.{le_refl, pow-suc, one-le-pow}
use native.Mathlib.Omega.{arith}

module _ (z : ℕ → ℕ) (f : ℕ → ℕ → ℕ) where
  -- A count of digits that is large enough may be replaced by the number itself.
  enough_digits : (k n a b : ℕ) → n ≤ k → a ≤ n → digits z f n a b ≡ digits z f a a b
  enough_digits k zero a b g h =
      let e : zero ≡ a = omega arith in ap (λ (c : ℕ). digits z f c a b) e
  enough_digits k (suc n) zero b g h = refl
  enough_digits zero (suc n) (suc a) b g h = absurd (omega arith)
  enough_digits (suc k) (suc n) (suc a) b g h =
      ap (λ (t : ℕ). t * 2 + f (suc a % 2) (b % 2))
        (enough_digits k n (suc a / 2) (b / 2) (omega arith) (omega arith)
          ∙ sym (enough_digits k a (suc a / 2) (b / 2) (omega arith) (omega arith)))

  -- The lowest digit of a result, and the others.
  bitwise_digit :
      ((b : ℕ) → z b ≡ f 0 (b % 2) + 2 * z (b / 2))
      → (a b : ℕ) → bitwise z f a b ≡ f (a % 2) (b % 2) + 2 * bitwise z f (a / 2) (b / 2)
  bitwise_digit base zero b = base b
  bitwise_digit base (suc a) b =
      omega (arith, enough_digits a a (suc a / 2) (b / 2) (omega arith) (omega arith))

pub bit_and_digit : (a b : ℕ) → bit_and a b ≡ min (a % 2) (b % 2) + 2 * bit_and (a / 2) (b / 2)
bit_and_digit a b = simp bit_and-bitwise (bitwise_digit (λ y. 0) min (λ y. omega arith) a b)

pub bit_or_digit : (a b : ℕ) → bit_or a b ≡ max (a % 2) (b % 2) + 2 * bit_or (a / 2) (b / 2)
bit_or_digit a b = simp bit_or-bitwise (bitwise_digit (λ y. y) max (λ y. omega arith) a b)

differ_zero : (x : ℕ) → x < 2 → differ 0 x ≡ x
differ_zero zero h = refl
differ_zero (suc zero) h = refl
differ_zero (suc (suc x)) h = absurd (omega arith)

pub bit_xor_digit : (a b : ℕ) → bit_xor a b ≡ differ (a % 2) (b % 2) + 2 * bit_xor (a / 2) (b / 2)
bit_xor_digit a b =
    simp bit_xor-bitwise
      (bitwise_digit (λ y. y) differ (λ y. omega (arith, differ_zero (y % 2) (omega arith))) a b)

-- `differ` on two binary digits.
differ_digits :
    (x y : ℕ)
    → x < 2
    → y < 2
    → (differ x y < 2) × (differ (differ x y) y ≡ x) × (differ x y ≡ differ y x)
differ_digits zero zero p q = (omega arith, refl, refl)
differ_digits zero (suc zero) p q = (omega arith, refl, refl)
differ_digits zero (suc (suc y)) p q = absurd (omega arith)
differ_digits (suc zero) zero p q = (omega arith, refl, refl)
differ_digits (suc zero) (suc zero) p q = (omega arith, refl, refl)
differ_digits (suc zero) (suc (suc y)) p q = absurd (omega arith)
differ_digits (suc (suc x)) y p q = absurd (omega arith)

pub bit_xor_half : (a b : ℕ) → bit_xor a b / 2 ≡ bit_xor (a / 2) (b / 2)
bit_xor_half a b =
    omega (arith, bit_xor_digit a b, differ_digits (a % 2) (b % 2) (omega arith) (omega arith))

pub bit_xor_low : (a b : ℕ) → bit_xor a b % 2 ≡ differ (a % 2) (b % 2)
bit_xor_low a b =
    omega (arith, bit_xor_digit a b, differ_digits (a % 2) (b % 2) (omega arith) (omega arith))

pub bit_xor-lt : (k a b : ℕ) → a < 2 ^ k → b < 2 ^ k → bit_xor a b < 2 ^ k
bit_xor-lt zero zero zero p q = p
bit_xor-lt zero zero (suc b) p q = absurd (omega arith)
bit_xor-lt zero (suc a) b p q = absurd (omega arith)
bit_xor-lt (suc k) a b p q = omega (
  arith,
  pow-suc 2 k,
  bit_xor_digit a b,
  differ_digits (a % 2) (b % 2) (omega arith) (omega arith),
  bit_xor-lt k (a / 2) (b / 2) (omega (arith, pow-suc 2 k)) (omega (arith, pow-suc 2 k)),
)

bit_xor_cancel_step :
    (a b : ℕ) → bit_xor (bit_xor (a / 2) (b / 2)) (b / 2) ≡ a / 2 → bit_xor (bit_xor a b) b ≡ a
bit_xor_cancel_step a b halves = omega (
  arith,
  bit_xor_digit (bit_xor a b) b,
  bit_xor_half a b,
  bit_xor_low a b,
  halves,
  digit.1,
  ap (λ (t : ℕ). bit_xor t (b / 2)) (bit_xor_half a b),
  ap (λ (t : ℕ). differ t (b % 2)) (bit_xor_low a b),
)
  where
    digit :
        (differ (a % 2) (b % 2) < 2)
        × (differ (differ (a % 2) (b % 2)) (b % 2) ≡ a % 2)
        × (differ (a % 2) (b % 2) ≡ differ (b % 2) (a % 2))
    digit = differ_digits (a % 2) (b % 2) (omega arith) (omega arith)

-- `(a ^ b) ^ b` is `a`.
pub bit_xor_cancel : (k a b : ℕ) → a < 2 ^ k → b < 2 ^ k → bit_xor (bit_xor a b) b ≡ a
bit_xor_cancel zero zero zero p q = refl
bit_xor_cancel zero zero (suc b) p q = absurd (omega arith)
bit_xor_cancel zero (suc a) b p q = absurd (omega arith)
bit_xor_cancel (suc k) a b p q =
    bit_xor_cancel_step a b
      (bit_xor_cancel k (a / 2) (b / 2) (omega (arith, pow-suc 2 k)) (omega (arith, pow-suc 2 k)))

pub bit_xor_comm : (k a b : ℕ) → a < 2 ^ k → b < 2 ^ k → bit_xor a b ≡ bit_xor b a
bit_xor_comm zero zero zero p q = refl
bit_xor_comm zero zero (suc b) p q = absurd (omega arith)
bit_xor_comm zero (suc a) b p q = absurd (omega arith)
bit_xor_comm (suc k) a b p q = omega (
  arith,
  bit_xor_digit a b,
  bit_xor_digit b a,
  differ_digits (a % 2) (b % 2) (omega arith) (omega arith),
  bit_xor_comm k (a / 2) (b / 2) (omega (arith, pow-suc 2 k)) (omega (arith, pow-suc 2 k)),
)

bit_or-zero_count : (n a : ℕ) → a ≤ n → bit_or a 0 ≡ a
bit_or-zero_count n zero h = refl
bit_or-zero_count zero (suc a) h = absurd (omega arith)
bit_or-zero_count (suc n) (suc a) h =
    omega (arith, bit_or_digit (suc a) 0, bit_or-zero_count n (suc a / 2) (omega arith))

bit_and-zero_count : (n a : ℕ) → a ≤ n → bit_and a 0 ≡ 0
bit_and-zero_count n zero h = refl
bit_and-zero_count zero (suc a) h = absurd (omega arith)
bit_and-zero_count (suc n) (suc a) h =
    omega (arith, bit_and_digit (suc a) 0, bit_and-zero_count n (suc a / 2) (omega arith))

shift_suc : (q k : ℕ) → q * 2 ^ suc k ≡ 2 * (q * 2 ^ k)
shift_suc q k = omega (arith, ap (λ (t : ℕ). q * t) (pow-suc 2 k))

-- `(q << k) | r` is a sum where `r` has `k` bits.
pub bit_or_fields : (k q r : ℕ) → r < 2 ^ k → bit_or (q * 2 ^ k) r ≡ q * 2 ^ k + r
bit_or_fields zero q zero h = rw (bit_or-zero_count _ (q * 2 ^ 0) (le_refl _)) (omega arith)
bit_or_fields zero q (suc r) h = absurd (omega arith)
bit_or_fields (suc k) q r h =
    ground
      (arith, bit_or_digit (q * 2 ^ suc k) r, shift_suc q k, pow-suc 2 k, bit_or_fields k q (r / 2))

-- `x & (2 ^ k - 1)` is the remainder by `2 ^ k`.
bit_and_ones : (k q r : ℕ) → r < 2 ^ k → bit_and (q * 2 ^ k + r) (2 ^ k - 1) ≡ r
bit_and_ones zero q r h = rw (bit_and-zero_count _ (q * 2 ^ 0 + r) (le_refl _)) (omega arith)
bit_and_ones (suc k) q r h = ground (
  arith,
  bit_and_digit (q * 2 ^ suc k + r) (2 ^ suc k - 1),
  shift_suc q k,
  pow-suc 2 k,
  bit_and_ones k q (r / 2),
)

pub bit_and_mask : (k x : ℕ) → bit_and x (2 ^ k - 1) ≡ x % 2 ^ k
bit_and_mask k x = ground (arith, one-le-pow k 2, bit_and_ones k (x / 2 ^ k) (x % 2 ^ k))
