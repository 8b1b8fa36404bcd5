-- ===== src/Math/BigInt.antt =====
-- math/bigint/bigint.h, bigint.cpp and big_ops3.cpp: integers as words with a sign. `reg` holds all words
-- of the register, from the lowest; operators of C++ have the names add, subtract, multiply, shift_left
-- and negate.
pub mod Words
pub mod Registers
pub mod Sums
pub mod Differences
pub mod Copies
pub mod Products
pub mod Reachable
use php_botan.Base.{
  ℕ, zero, suc, ◌+◌, ◌-◌, ◌*◌, ◌/◌, ◌%◌, ◌^◌, List, [], ◌∷◌, take, length, replicate, Bool, true,
  false, not, ◌&&◌, ◌||◌, ltb, ◌==◌, if◌then◌else◌,
}
use Prim.Native.Nat.{Ordering}
use php_botan.Math.Mp.{bigint_add3, bigint_sub3, bigint_cmp, negated, bigint_linmul3}
use php_botan.Math.Comba.Columns.{word_at}
use php_botan.Math.Multiply.{stored, bigint_mul}
use php_botan.Math.Shift.{bigint_shl2}

pub data Sign : Type 0 where
  positive : Sign
  negative : Sign

pub record BigInt : Type 0 where
  pub reg : List ℕ
  pub signedness : Sign

-- The loop of `sig_words`, from the word below `sig` down.
unfoldable pub sig_loop : List ℕ → ℕ → ℕ
sig_loop x zero = 0
sig_loop x (suc sig) = let rest = sig_loop x sig in if word_at x sig == 0 then rest else suc sig

unfoldable pub sig_words : BigInt → ℕ
unfolding sig_loop
sig_words b = sig_loop b.reg (length b.reg)

unfoldable pub all_zero : List ℕ → Bool
all_zero [] = true
all_zero (x ∷ xs) = x == 0 && all_zero xs

unfoldable pub is_zero : BigInt → Bool
unfolding sig_words all_zero
is_zero b = all_zero (take (sig_words b) b.reg)

unfoldable pub same_sign : Sign → Sign → Bool
same_sign positive positive = true
same_sign positive negative = false
same_sign negative positive = false
same_sign negative negative = true

unfoldable pub reverse_sign : Sign → Sign
reverse_sign positive = negative
reverse_sign negative = positive

unfoldable pub set_sign : Sign → BigInt → BigInt
unfolding is_zero
set_sign s b = record { reg = b.reg; signedness = if is_zero b then positive else s }

unfoldable pub flip_sign : BigInt → BigInt
unfolding set_sign reverse_sign
flip_sign b = set_sign (reverse_sign b.signedness) b

-- `n` to a multiple of `align_to`, and 0 to `align_to`.
unfoldable pub round_up : ℕ → ℕ → ℕ
round_up n align_to = if not (n % align_to == 0) || n == 0 then n + (align_to - n % align_to) else n

-- The constructor with a sign and a size.
unfoldable pub sized : Sign → ℕ → BigInt
unfolding round_up
sized s size = record { reg = replicate (round_up size 8) 0; signedness = s }

abbrev pub max_words : ℕ → ℕ → ℕ
max_words a b = if ltb a b then b else a

-- The words that matter, which the operators pass on with their number.
unfoldable pub significant : BigInt → List ℕ
unfolding sig_words
significant b = take (sig_words b) b.reg

unfoldable pub magnitude_cmp : BigInt → BigInt → Ordering
unfolding significant bigint_cmp
magnitude_cmp x y = bigint_cmp (significant x) (significant y)

-- The branches of the sum where the signs differ, by the comparison of the magnitudes; `z` is the new
-- register with its sign.
unfoldable pub add_opposite : Ordering → BigInt → BigInt → BigInt → BigInt
unfolding significant bigint_sub3 set_sign stored
add_opposite Ordering.lt z x y = set_sign y.signedness (record {
  reg = stored z.reg (bigint_sub3 (significant y) (significant x));
  signedness = z.signedness;
})
add_opposite Ordering.eq z x y = set_sign positive z
add_opposite Ordering.gt z x y = record {
  reg = stored z.reg (bigint_sub3 (significant x) (significant y));
  signedness = z.signedness;
}

unfoldable pub add : BigInt → BigInt → BigInt
unfolding sized significant bigint_add3 magnitude_cmp same_sign add_opposite
add x y =
    let z = sized x.signedness (max_words (sig_words x) (sig_words y) + 1) in
    if same_sign x.signedness y.signedness
    then record {
      reg = bigint_add3 z.reg (significant x) (significant y);
      signedness = z.signedness;
    }
    else add_opposite (magnitude_cmp x y) z x y

-- The branches of the difference; `z` is the new register.
unfoldable pub subtract_by : Ordering → List ℕ → BigInt → BigInt → BigInt
unfolding significant bigint_add3 bigint_sub3 set_sign same_sign reverse_sign stored bigint_shl2
subtract_by Ordering.lt z x y = set_sign (reverse_sign y.signedness) (record {
  reg =
      if same_sign x.signedness y.signedness
      then stored z (bigint_sub3 (significant y) (significant x))
      else bigint_add3 z (significant x) (significant y);
  signedness = positive;
})
subtract_by Ordering.eq z x y = record {
  reg = if not (same_sign x.signedness y.signedness) then bigint_shl2 z (significant x) 0 1 else z;
  signedness = positive;
}
subtract_by Ordering.gt z x y = set_sign x.signedness (record {
  reg =
      if same_sign x.signedness y.signedness
      then stored z (bigint_sub3 (significant x) (significant y))
      else bigint_add3 z (significant x) (significant y);
  signedness = positive;
})

unfoldable pub subtract : BigInt → BigInt → BigInt
unfolding sized magnitude_cmp subtract_by
subtract x y =
    let z = sized positive (max_words (sig_words x) (sig_words y) + 1) in
    subtract_by (magnitude_cmp x y) z.reg x y

-- The register of the product before its sign is set.
unfoldable pub product_words : BigInt → BigInt → List ℕ
unfolding sized sig_words significant stored
product_words x y =
    let x_sw = sig_words x in
    let y_sw = sig_words y in
    let z = sized positive (length x.reg + length y.reg) in
    if x_sw == 1 && not (y_sw == 0)
    then stored z.reg (bigint_linmul3 (significant y) (word_at x.reg 0))
    else if y_sw == 1 && not (x_sw == 0)
    then stored z.reg (bigint_linmul3 (significant x) (word_at y.reg 0))
    else if not (x_sw == 0) && not (y_sw == 0)
    then bigint_mul z.reg x.reg x_sw y.reg y_sw
    else z.reg

unfoldable pub multiply : BigInt → BigInt → BigInt
unfolding product_words sig_words same_sign flip_sign
multiply x y =
    let product : BigInt = record { reg = product_words x y; signedness = positive } in
    if (not (sig_words x == 0) && not (sig_words y == 0))
      && not (same_sign x.signedness y.signedness)
    then flip_sign product
    else product

-- The copy constructor takes the words that matter.
unfoldable pub copy : BigInt → BigInt
unfolding sized sig_words significant set_sign stored
copy b =
    if sig_words b == 0
    then record { reg = replicate 2 0; signedness = positive }
    else set_sign b.signedness (record {
      reg = stored (replicate (round_up (sig_words b) 8) 0) (significant b);
      signedness = positive;
    })

-- `operator<<`
unfoldable pub shift_left : BigInt → ℕ → BigInt
unfolding sized sig_words significant bigint_shl2 copy
shift_left x shift =
    let shift_words = shift / 32 in
    let shift_bits = shift % 32 in
    let y = sized x.signedness (sig_words x + shift_words + (if shift_bits == 0 then 0 else 1)) in
    if shift == 0 then copy x else record {
      reg = bigint_shl2 y.reg (significant x) shift_words shift_bits;
      signedness = y.signedness;
    }

-- The unary minus.
unfoldable pub negate : BigInt → BigInt
unfolding copy flip_sign
negate b = flip_sign (copy b)

-- `cmp` with `check_signs`.
unfoldable pub cmp : BigInt → BigInt → Ordering
unfolding magnitude_cmp negated
cmp x y = by_signs x.signedness y.signedness
  where
    by_signs : Sign → Sign → Ordering
    by_signs negative positive = Ordering.lt
    by_signs positive negative = Ordering.gt
    by_signs negative negative = negated (magnitude_cmp x y)
    by_signs positive positive = magnitude_cmp x y

-- The constructor from a number of 64 bits, which are two words.
unfoldable pub from_u64 : ℕ → BigInt
from_u64 n =
    if n == 0
    then record { reg = []; signedness = positive }
    else record { reg = n % 2 ^ 32 ∷ n / 2 ^ 32 % 2 ^ 32 ∷ replicate 6 0; signedness = positive }
