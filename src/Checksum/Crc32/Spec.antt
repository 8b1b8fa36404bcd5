-- ===== src/Checksum/Crc32/Spec.antt =====
-- The update by table divides by the polynomial, bit by bit.
use php_botan.Base.{
  ℕ, zero, suc, ◌+◌, ◌*◌, ◌/◌, ◌%◌, ◌^◌, ◌<◌, ◌≡◌, refl, sym, ap, ap₂, ◌∙◌, arith, List, [], ◌∷◌,
  All, get_or, length, bit_xor,
}
use php_botan.Base.Bits.{bit_and_mask, bit_xor-lt, bit_xor_half}
use native.Mathlib.Nat.{pow-suc}
use php_botan.Base.BitXor.{
  bit_xor_swap, bit_xor_shift, bit_xor_fields, bit_xor_parity, bit_xor-zero,
}
use php_botan.Base.Tables.{all_from, eq_by_table}
use php_botan.Base.Words.{IsByte, IsU32, shr32}
use php_botan.Checksum.Unrolled.{add_each, add_rounds-add_each}
use php_botan.Checksum.Crc32.{crc_step, add_data}
use php_botan.Checksum.Crc32.Table.{table}

-- One bit: the remainder of the state, shifted, by the polynomial, with the lowest bit for the highest
-- power.
unfoldable pub bit_step : ℕ → ℕ
bit_step c = bit_xor (c / 2) (c % 2 * 0xEDB88320)

unfoldable pub bit_steps : ℕ → ℕ → ℕ
unfolding bit_step
bit_steps zero c = c
bit_steps (suc n) c = bit_steps n (bit_step c)

-- A byte: it is added to the state, and eight bits are shifted out.
unfoldable pub crc_spec : ℕ → List ℕ → ℕ
unfolding bit_steps
crc_spec c [] = c
crc_spec c (b ∷ bs) = crc_spec (bit_steps 8 (bit_xor c b)) bs

bit_step-lt : (c : ℕ) → IsU32 c → IsU32 (bit_step c)
unfolding bit_step
bit_step-lt c h = bit_xor-lt 32 (c / 2) (c % 2 * 0xEDB88320) (omega arith) (omega arith)

polynomial_sum :
    (x y : ℕ) → x < 2 → y < 2 → (x + y) % 2 * 0xEDB88320 ≡ bit_xor (x * 0xEDB88320) (y * 0xEDB88320)
polynomial_sum zero zero p q = refl
polynomial_sum zero (suc zero) p q = refl
polynomial_sum (suc zero) zero p q = refl
polynomial_sum (suc zero) (suc zero) p q = refl
polynomial_sum zero (suc (suc y)) p q = absurd (omega arith)
polynomial_sum (suc zero) (suc (suc y)) p q = absurd (omega arith)
polynomial_sum (suc (suc x)) y p q = absurd (omega arith)

bit_step-bit_xor :
    (a b : ℕ) → IsU32 a → IsU32 b → bit_step (bit_xor a b) ≡ bit_xor (bit_step a) (bit_step b)
unfolding bit_step
bit_step-bit_xor a b h g =
    ap₂ bit_xor (bit_xor_half a b)
      (ap (λ (t : ℕ). t * 0xEDB88320) (bit_xor_parity a b) ∙ sum_of_bits)
    ∙ bit_xor_swap 32 (a / 2) (b / 2) (a % 2 * 0xEDB88320) (b % 2 * 0xEDB88320) (omega arith)
        (omega arith) (omega arith) (omega arith)
  where
    sum_of_bits : (a + b) % 2 * 0xEDB88320 ≡ bit_xor (a % 2 * 0xEDB88320) (b % 2 * 0xEDB88320)
    sum_of_bits =
        let e : (a + b) % 2 ≡ (a % 2 + b % 2) % 2 = omega arith in
        ap (λ (t : ℕ). t * 0xEDB88320) e
        ∙ polynomial_sum (a % 2) (b % 2) (omega arith) (omega arith)

bit_steps-bit_xor :
    (n a b : ℕ)
    → IsU32 a
    → IsU32 b
    → bit_steps n (bit_xor a b) ≡ bit_xor (bit_steps n a) (bit_steps n b)
unfolding bit_steps
bit_steps-bit_xor zero a b h g = refl
bit_steps-bit_xor (suc n) a b h g =
    ap (bit_steps n) (bit_step-bit_xor a b h g)
    ∙ bit_steps-bit_xor n (bit_step a) (bit_step b) (bit_step-lt a h) (bit_step-lt b g)

-- Zeros are shifted out without a trace.
bit_steps-zeros : (n q : ℕ) → bit_steps n (q * 2 ^ n) ≡ q
unfolding bit_steps bit_step
bit_steps-zeros zero q = omega arith
bit_steps-zeros (suc n) q =
    let twice : q * 2 ^ suc n ≡ 2 * (q * 2 ^ n) =
      omega (arith, ap (λ (t : ℕ). q * t) (pow-suc 2 n)) in
    let half : q * 2 ^ suc n / 2 ≡ q * 2 ^ n = omega (arith, twice) in
    let none_out : q * 2 ^ suc n % 2 * 0xEDB88320 ≡ 0 = omega (arith, twice) in
    ap (bit_steps n) (ap₂ bit_xor half none_out ∙ bit_xor-zero (q * 2 ^ n)) ∙ bit_steps-zeros n q

table_lem : (x : ℕ) → x < 256 → bit_steps 8 x ≡ get_or table x 0
unfolding all_from bit_steps
table_lem x h = eq_by_table 256 (bit_steps 8) (λ y. get_or table y 0) x refl h

module _ (c b : ℕ) (h : IsU32 c) (g : IsByte b) where
  sum_word : ℕ
  sum_word = bit_xor c b

  sum_word-lt : IsU32 sum_word
  unfolding sum_word
  sum_word-lt = bit_xor-lt 32 c b h (omega arith)

  fields : sum_word ≡ bit_xor (sum_word % 256) (sum_word / 256 * 2 ^ 8)
  fields =
      let parts : sum_word ≡ sum_word / 256 * 2 ^ 8 + sum_word % 256 = omega arith in
      parts ∙ sym (bit_xor_fields 8 (sum_word / 256) (sum_word % 256) (omega arith))

  high : sum_word / 256 ≡ shr32 c 8
  unfolding sum_word shr32
  high =
      let none_left : b / 256 ≡ 0 = omega arith in
      bit_xor_shift c b ∙ ap (bit_xor (c / 256)) none_left ∙ bit_xor-zero (c / 256)

  crc_step-bit_steps : crc_step c b ≡ bit_steps 8 (bit_xor c b)
  unfolding crc_step sum_word
  crc_step-bit_steps = sym (
      ap (bit_steps 8) fields
      ∙ bit_steps-bit_xor 8 (sum_word % 256) (sum_word / 256 * 2 ^ 8) (omega arith)
          (omega (arith, sum_word-lt))
      ∙ ap₂ bit_xor
          (table_lem (sum_word % 256) (omega arith)
            ∙ ap (λ (i : ℕ). get_or table i 0) (sym (bit_and_mask 8 (bit_xor c b))))
          (bit_steps-zeros 8 (sum_word / 256) ∙ high))

bit_steps-lt : (n c : ℕ) → IsU32 c → IsU32 (bit_steps n c)
unfolding bit_steps
bit_steps-lt zero c h = h
bit_steps-lt (suc n) c h = bit_steps-lt n (bit_step c) (bit_step-lt c h)

add_each-crc_spec :
    (c : ℕ) (input : List ℕ)
    → IsU32 c
    → All IsByte input
    → add_each crc_step c input ≡ crc_spec c input
unfolding crc_spec
add_each-crc_spec c [] h g = refl
add_each-crc_spec c (b ∷ bs) h (g, gs) =
    ap (λ (k : ℕ). add_each crc_step k bs) (crc_step-bit_steps c b h g)
    ∙ add_each-crc_spec (bit_steps 8 (bit_xor c b)) bs
        (bit_steps-lt 8 (bit_xor c b) (bit_xor-lt 32 c b h (omega arith))) gs

-- From a 32-bit state, over any number of bytes, the loops by table leave the state that the
-- polynomial division leaves bit by bit.
pub add_data-crc_spec :
    (crc : ℕ) (input : List ℕ)
    → IsU32 crc
    → All IsByte input
    → add_data crc input ≡ crc_spec crc input
unfolding add_data
add_data-crc_spec crc input h g =
    add_rounds-add_each crc_step (length input / 16) crc input ∙ add_each-crc_spec crc input h g
