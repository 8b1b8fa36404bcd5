-- ===== src/Base/Words.antt =====
-- utils/loadstor.h, utils/rotate.h and utils/xor_buf.h: machine words as numbers, with wrap-around
-- written out. A byte array is the list of its bytes; a read past its end gives 0.
use php_botan.Base.Lists.{get_or, All, length}
use php_botan.Base.Bits.{bit_or_fields}
use Prim.Native.Nat.{ℕ, ◌+◌, ◌-◌, ◌*◌, ◌/◌, ◌%◌, ◌^◌, ◌<◌, bit_or}
use mathlib.Core.Path.{◌≡◌, ◌∙◌}
use mathlib.Core.List.{List, [], ◌∷◌}
use native.Mathlib.Omega.{arith}

abbrev pub u8 : ℕ → ℕ
u8 n = n % 2 ^ 8

abbrev pub u32 : ℕ → ℕ
u32 n = n % 2 ^ 32

abbrev pub IsByte : ℕ → Type 0
IsByte b = b < 256

abbrev pub IsU32 : ℕ → Type 0
IsU32 n = n < 2 ^ 32

-- A block of `n` bytes.
abbrev pub IsBlock : ℕ → List ℕ → Type 0
IsBlock n bs = (length bs ≡ n) × All IsByte bs

-- `x << k` and `x >> k` on 32 bits.
unfoldable pub shl32 : ℕ → ℕ → ℕ
shl32 x k = u32 (x * 2 ^ k)

unfoldable pub shr32 : ℕ → ℕ → ℕ
shr32 x k = x / 2 ^ k

-- `+` and `-` on 32 bits.
unfoldable pub add32 : ℕ → ℕ → ℕ
add32 a b = u32 (a + b)

unfoldable pub sub32 : ℕ → ℕ → ℕ
sub32 a b = u32 (a + 2 ^ 32 - u32 b)

pub add32-lt : (a b : ℕ) → IsU32 (add32 a b)
unfolding add32
add32-lt a b = omega arith

pub sub32-lt : (a b : ℕ) → IsU32 (sub32 a b)
unfolding sub32
sub32-lt a b = omega arith

-- Subtraction undoes addition of any number.
pub sub32-add32 : (a b : ℕ) → IsU32 a → sub32 (add32 a b) b ≡ a
unfolding add32 sub32
sub32-add32 a b h = omega arith

pub add32-sub32 : (a b : ℕ) → IsU32 a → add32 (sub32 a b) b ≡ a
unfolding add32 sub32
add32-sub32 a b h = omega arith

-- `make_u32bit` of the bytes at a word's place, in the order of the arguments.
unfoldable pub make_u32bit : ℕ → ℕ → ℕ → ℕ → ℕ
make_u32bit i0 i1 i2 i3 = bit_or (i0 * 2 ^ 24) (bit_or (i1 * 2 ^ 16) (bit_or (i2 * 2 ^ 8) i3))

unfoldable pub load_be : List ℕ → ℕ → ℕ
unfolding make_u32bit
load_be bs off =
    make_u32bit (get_or bs (off * 4) 0) (get_or bs (off * 4 + 1) 0) (get_or bs (off * 4 + 2) 0)
      (get_or bs (off * 4 + 3) 0)

-- `get_byte` of a 32-bit word, for a byte number below 4.
unfoldable pub get_byte : ℕ → ℕ → ℕ
get_byte byte_num input = u8 (input / 2 ^ ((3 - byte_num) * 8))

unfoldable pub store_be : ℕ → List ℕ
unfolding get_byte
store_be n = get_byte 0 n ∷ get_byte 1 n ∷ get_byte 2 n ∷ get_byte 3 n ∷ []

pub make_u32bit_lem :
    (a b c d : ℕ)
    → IsByte a
    → IsByte b
    → IsByte c
    → IsByte d
    → make_u32bit a b c d ≡ a * 16777216 + b * 65536 + c * 256 + d
unfolding make_u32bit
make_u32bit_lem a b c d ha hb hc hd =
    rw
      (
        bit_or_fields 8 c d hd,
        bit_or_fields 16 b (c * 2 ^ 8 + d) (omega arith),
        bit_or_fields 24 a (b * 2 ^ 16 + (c * 2 ^ 8 + d)) (omega arith),
      )
      (omega arith)

pub store_be-IsByte : (n : ℕ) → All IsByte (store_be n)
unfolding store_be
store_be-IsByte n = omega arith

pub load_be-IsU32 :
    (bs : List ℕ) (off : ℕ) → ((i : ℕ) → IsByte (get_or bs i 0)) → IsU32 (load_be bs off)
unfolding load_be
load_be-IsU32 bs off h = omega (
  arith,
  h (off * 4),
  h (off * 4 + 1),
  h (off * 4 + 2),
  h (off * 4 + 3),
  make_u32bit_lem (get_or bs (off * 4) 0) (get_or bs (off * 4 + 1) 0) (get_or bs (off * 4 + 2) 0)
      (get_or bs (off * 4 + 3) 0) (h _) (h _) (h _) (h _),
)

pub get_byte-IsByte : (i n : ℕ) → IsByte (get_byte i n)
unfolding get_byte
get_byte-IsByte i n = omega arith

pub make_u32bit-get_byte :
    (n : ℕ) → IsU32 n → make_u32bit (get_byte 0 n) (get_byte 1 n) (get_byte 2 n) (get_byte 3 n) ≡ n
unfolding get_byte
make_u32bit-get_byte n h =
    make_u32bit_lem (get_byte 0 n) (get_byte 1 n) (get_byte 2 n) (get_byte 3 n)
      (get_byte-IsByte 0 n) (get_byte-IsByte 1 n) (get_byte-IsByte 2 n) (get_byte-IsByte 3 n)
    ∙ omega arith

pub store_be-make_u32bit :
    (a b c d : ℕ)
    → IsByte a
    → IsByte b
    → IsByte c
    → IsByte d
    → store_be (make_u32bit a b c d) ≡ a ∷ b ∷ c ∷ d ∷ []
unfolding store_be
store_be-make_u32bit a b c d ha hb hc hd = rw (make_u32bit_lem a b c d ha hb hc hd) (ground arith)
