-- ===== src/Checksum/Adler32.antt =====
-- checksum/adler32/adler32.cpp: Adler-32. `S1` and `S2` are 16-bit members, and the sums of `hash`
-- are 32-bit words.
pub mod Spec
mod Tests
use php_botan.Base.{
  ℕ, zero, suc, ◌+◌, ◌-◌, ◌*◌, ◌/◌, ◌%◌, ◌^◌, ◌<◌, ◌≤◌, ◌≡◌, refl, sym, ap, ap₂, ◌∙◌, arith, List,
  [], ◌∷◌, ◌++◌, All, All-take, All-drop, take, drop, length, length-take, length-drop,
  take-append-drop, take_all,
}
use php_botan.Base.Words.{IsByte, u32, get_byte}

pub record Adler32 : Type 0 where
  pub s1 : ℕ
  pub s2 : ℕ

-- The header's `clear()`.
pub clear : Adler32
clear = record { s1 = 1; s2 = 0 }

-- `S1x += input[j]; S2x += S1x;`
abbrev pub add_byte : ℕ × ℕ → ℕ → ℕ × ℕ
add_byte (s1x, s2x) b = (u32 (s1x + b), u32 (s2x + u32 (s1x + b)))

pub add_bytes : ℕ × ℕ → List ℕ → ℕ × ℕ
add_bytes s [] = s
add_bytes s (b ∷ bs) = add_bytes (add_byte s b) bs

-- `while(length >= 16)`, sixteen additions to a round, and then the bytes that are left.
pub add_unrolled : ℕ → ℕ × ℕ → List ℕ → ℕ × ℕ
unfolding add_bytes
add_unrolled zero s input = add_bytes s input
add_unrolled (suc rounds) s input =
    add_unrolled rounds (add_bytes s (take 16 input)) (drop 16 input)

hash_end : ℕ × ℕ → Adler32
hash_end (s1x, s2x) = record { s1 = s1x % 65521; s2 = s2x % 65521 }

pub hash : Adler32 → List ℕ → Adler32
unfolding add_unrolled hash_end
hash a input = hash_end (add_unrolled (length input / 16) (a.s1, a.s2) input)

abbrev process_amount : ℕ
process_amount = 5552

add_rounds : ℕ → Adler32 → List ℕ → Adler32
unfolding hash
add_rounds zero a input = hash a input
add_rounds (suc rounds) a input =
    add_rounds rounds (hash a (take process_amount input)) (drop process_amount input)

-- `while(length >= PROCESS_AMOUNT)`, with the number of rounds.
pub add_data : Adler32 → List ℕ → Adler32
unfolding add_rounds
add_data a input = add_rounds (length input / process_amount) a input

-- `store_be(output, S2, S1)`, two bytes each, and the state after it.
pub final_result : Adler32 → List ℕ × Adler32
unfolding get_byte clear
final_result a = (get_byte 2 a.s2 ∷ get_byte 3 a.s2 ∷ get_byte 2 a.s1 ∷ get_byte 3 a.s1 ∷ [], clear)

-- The definition of Adler-32: both sums modulo 65521, byte by byte, and no machine words.
pub adler_spec : ℕ × ℕ → List ℕ → ℕ × ℕ
adler_spec s [] = s
adler_spec (a, b) (c ∷ cs) = adler_spec ((a + c) % 65521, (b + (a + c)) % 65521) cs
