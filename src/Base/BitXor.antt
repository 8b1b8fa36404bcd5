-- ===== src/Base/BitXor.antt =====
-- More laws of the exclusive or: regrouping, shifts and disjoint fields.
use php_botan.Base.{
  ℕ, zero, suc, ◌+◌, ◌*◌, ◌/◌, ◌%◌, ◌^◌, ◌<◌, ◌≤◌, ◌≡◌, refl, sym, ap, ap₂, ◌∙◌, arith, bit_xor,
}
use php_botan.Base.Bits.{bit_xor_half, bit_xor_low}
use Prim.Native.Nat.{differ, bit_xor-bitwise}
use native.Mathlib.Nat.{pow-suc}

digits_sum : (x y : ℕ) → x < 2 → y < 2 → differ x y ≡ (x + y) % 2
digits_sum zero zero p q = refl
digits_sum zero (suc zero) p q = refl
digits_sum (suc zero) zero p q = refl
digits_sum (suc zero) (suc zero) p q = refl
digits_sum zero (suc (suc y)) p q = absurd (omega arith)
digits_sum (suc zero) (suc (suc y)) p q = absurd (omega arith)
digits_sum (suc (suc x)) y p q = absurd (omega arith)

pub bit_xor_parity : (a b : ℕ) → bit_xor a b % 2 ≡ (a + b) % 2
bit_xor_parity a b =
    omega (arith, bit_xor_low a b, digits_sum (a % 2) (b % 2) (omega arith) (omega arith))

bit_xor_parts : (a b : ℕ) → bit_xor a b ≡ (a + b) % 2 + 2 * bit_xor (a / 2) (b / 2)
bit_xor_parts a b = omega (arith, bit_xor_parity a b, bit_xor_half a b)

pub bit_xor_swap :
    (k a b c d : ℕ)
    → a < 2 ^ k
    → b < 2 ^ k
    → c < 2 ^ k
    → d < 2 ^ k
    → bit_xor (bit_xor a b) (bit_xor c d) ≡ bit_xor (bit_xor a c) (bit_xor b d)
bit_xor_swap zero a b c d p q r s =
    let ea : a ≡ 0 = omega arith in
    let eb : b ≡ 0 = omega arith in
    let ec : c ≡ 0 = omega arith in let ed : d ≡ 0 = omega arith in rw (ea, eb, ec, ed) refl
bit_xor_swap (suc k) a b c d p q r s = omega (
  arith,
  bit_xor_parts (bit_xor a b) (bit_xor c d),
  bit_xor_parts (bit_xor a c) (bit_xor b d),
  bit_xor_parity a b,
  bit_xor_parity c d,
  bit_xor_parity a c,
  bit_xor_parity b d,
  ap₂ bit_xor (bit_xor_half a b) (bit_xor_half c d),
  ap₂ bit_xor (bit_xor_half a c) (bit_xor_half b d),
  bit_xor_swap k (a / 2) (b / 2) (c / 2) (d / 2) (omega (arith, pow-suc 2 k))
      (omega (arith, pow-suc 2 k)) (omega (arith, pow-suc 2 k)) (omega (arith, pow-suc 2 k)),
)

pub zero-bit_xor : (b : ℕ) → bit_xor 0 b ≡ b
zero-bit_xor b = bit_xor-bitwise 0 b

bit_xor-zero_count : (n a : ℕ) → a ≤ n → bit_xor a 0 ≡ a
bit_xor-zero_count n zero h = refl
bit_xor-zero_count zero (suc a) h = absurd (omega arith)
bit_xor-zero_count (suc n) (suc a) h =
    omega (arith, bit_xor_parts (suc a) 0, bit_xor-zero_count n (suc a / 2) (omega arith))

pub bit_xor-zero : (a : ℕ) → bit_xor a 0 ≡ a
bit_xor-zero a = bit_xor-zero_count a a (omega arith)

-- `n` halvings.
halves : ℕ → ℕ → ℕ
halves zero x = x
halves (suc n) x = halves n (x / 2)

halves-bit_xor : (n a b : ℕ) → halves n (bit_xor a b) ≡ bit_xor (halves n a) (halves n b)
unfolding halves
halves-bit_xor zero a b = refl
halves-bit_xor (suc n) a b = ap (halves n) (bit_xor_half a b) ∙ halves-bit_xor n (a / 2) (b / 2)

halves_eight : (x : ℕ) → halves 8 x ≡ x / 256
unfolding halves
halves_eight x = omega arith

pub bit_xor_shift : (a b : ℕ) → bit_xor a b / 256 ≡ bit_xor (a / 256) (b / 256)
bit_xor_shift a b =
    sym (halves_eight (bit_xor a b))
    ∙ halves-bit_xor 8 a b
    ∙ ap₂ bit_xor (halves_eight a) (halves_eight b)

-- A number is made of its fields.
pub bit_xor_fields : (k q r : ℕ) → r < 2 ^ k → bit_xor r (q * 2 ^ k) ≡ q * 2 ^ k + r
bit_xor_fields zero q zero h = zero-bit_xor (q * 2 ^ 0) ∙ omega arith
bit_xor_fields zero q (suc r) h = absurd (omega arith)
bit_xor_fields (suc k) q r h =
    let twice : q * 2 ^ suc k ≡ 2 * (q * 2 ^ k) =
      omega (arith, ap (λ (t : ℕ). q * t) (pow-suc 2 k)) in
    let half : q * 2 ^ suc k / 2 ≡ q * 2 ^ k = omega (arith, twice) in
    omega (
      arith,
      bit_xor_parts r (q * 2 ^ suc k),
      twice,
      ap (bit_xor (r / 2)) half,
      bit_xor_fields k q (r / 2) (omega (arith, pow-suc 2 k)),
    )
