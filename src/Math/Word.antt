-- ===== src/Math/Word.antt =====
-- math/bigint/mp_generic/mp_asm.h and mp_asmi.h: operations on words of 32 bits. A carry that is
-- passed by pointer is an argument and the second part of the result.
use php_botan.Base.{
  ℕ, ◌+◌, ◌-◌, ◌*◌, ◌/◌, ◌%◌, ◌^◌, ◌≤◌, ◌≡◌, arith, Bool, true, false, ◌||◌, bit_or, ltb,
}
use native.Mathlib.Nat.{mul-le-mul}
use php_botan.Base.Words.{u32, IsU32}

-- A test as a word.
abbrev pub flag : Bool → ℕ
flag true = 1
flag false = 0

unfoldable pub word_add : ℕ → ℕ → ℕ → ℕ × ℕ
word_add x y carry =
    let z = u32 (x + y) in let z' = u32 (z + carry) in (z', flag (ltb z x || ltb z' carry))

unfoldable pub word_sub : ℕ → ℕ → ℕ → ℕ × ℕ
word_sub x y carry =
    let t0 = u32 (x + 2 ^ 32 - y) in
    let z = u32 (t0 + 2 ^ 32 - carry) in (z, flag (ltb x t0 || ltb t0 z))

-- `dword` has 64 bits, which hold both sums.
unfoldable pub word_madd2 : ℕ → ℕ → ℕ → ℕ × ℕ
word_madd2 a b c = let z = (a * b + c) % 2 ^ 64 in (u32 z, u32 (z / 2 ^ 32))

unfoldable pub word_madd3 : ℕ → ℕ → ℕ → ℕ → ℕ × ℕ
word_madd3 a b c d = let z = (a * b + c + d) % 2 ^ 64 in (u32 z, u32 (z / 2 ^ 32))

-- Three words, from the lowest: `w0`, `w1`, `w2`.
abbrev pub Word3 : Type 0
Word3 = ℕ × ℕ × ℕ

unfoldable pub word3_muladd : Word3 → ℕ → ℕ → Word3
unfolding word_madd2
word3_muladd (w0, w1, w2) a b =
    let (low, carry) = word_madd2 a b w0 in
    let w1' = u32 (w1 + carry) in (low, w1', u32 (w2 + flag (ltb w1' carry)))

unfoldable pub word3_muladd_2 : Word3 → ℕ → ℕ → Word3
unfolding word_madd2 word_add
word3_muladd_2 (w0, w1, w2) a b =
    let (low, high) = word_madd2 a b 0 in
    let top = high / 2 ^ 31 in
    let b' = bit_or (u32 (high * 2)) (low / 2 ^ 31) in
    let a' = u32 (low * 2) in
    let (w0', c0) = word_add w0 a' 0 in
    let (w1', c1) = word_add w1 b' c0 in let (w2', c2) = word_add w2 top c1 in (w0', w1', w2')

-- What the operations compute, without wrap-around.
pub word_add_lem :
    (x y c : ℕ)
    → IsU32 x
    → IsU32 y
    → c ≤ 1
    → ((word_add x y c).0 + 2 ^ 32 * (word_add x y c).1 ≡ x + y + c)
      × IsU32 (word_add x y c).0
      × ((word_add x y c).1 ≤ 1)
unfolding word_add
word_add_lem x y c h g k = ground arith

pub word_sub_lem :
    (x y c : ℕ)
    → IsU32 x
    → IsU32 y
    → c ≤ 1
    → ((word_sub x y c).0 + y + c ≡ x + 2 ^ 32 * (word_sub x y c).1)
      × IsU32 (word_sub x y c).0
      × ((word_sub x y c).1 ≤ 1)
unfolding word_sub
word_sub_lem x y c h g k = ground arith

-- The product of two words.
pub word_product : (a b : ℕ) → IsU32 a → IsU32 b → a * b ≤ (2 ^ 32 - 1) * (2 ^ 32 - 1)
word_product a b h g =
    let x : a ≤ 2 ^ 32 - 1 = omega arith in let y : b ≤ 2 ^ 32 - 1 = omega arith in mul-le-mul x y

pub word_madd2_lem :
    (a b c : ℕ)
    → IsU32 a
    → IsU32 b
    → IsU32 c
    → ((word_madd2 a b c).0 + 2 ^ 32 * (word_madd2 a b c).1 ≡ a * b + c)
      × IsU32 (word_madd2 a b c).0
      × IsU32 (word_madd2 a b c).1
unfolding word_madd2
word_madd2_lem a b c h g k = omega (arith, word_product a b h g)

pub word_madd3_lem :
    (a b c d : ℕ)
    → IsU32 a
    → IsU32 b
    → IsU32 c
    → IsU32 d
    → ((word_madd3 a b c d).0 + 2 ^ 32 * (word_madd3 a b c d).1 ≡ a * b + c + d)
      × IsU32 (word_madd3 a b c d).0
      × IsU32 (word_madd3 a b c d).1
unfolding word_madd3
word_madd3_lem a b c d h g k l = omega (arith, word_product a b h g)
