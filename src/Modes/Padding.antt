-- ===== src/Modes/Padding.antt =====
-- modes/mode_pad/mode_pad.cpp: the padding methods of CBC. A block is the list of its bytes.
pub mod RoundTrip
pub mod Exact
use php_botan.Base.{
  ℕ, zero, suc, ◌+◌, ◌-◌, ◌%◌, List, [], ◌∷◌, ◌++◌, Bool, true, false, ◌&&◌, not, take, drop,
  length, replicate, get_elem?, set, Option, none, some, ltb, ◌==◌, if◌then◌else◌,
}
use php_botan.Base.Words.{u8}

-- The subclasses of BlockCipherModePaddingMethod that the file implements.
pub data PaddingMethod : Type 0 where
  pkcs7 ansi_x923 one_and_zeros : PaddingMethod

-- No subclass overrides `pad_bytes`.
unfoldable pub pad_bytes : ℕ → ℕ → ℕ
pad_bytes bs pos = bs - pos

-- Each `pad` writes into `block`, which has `size` bytes. `position` is below `size`.
pkcs7_pad : ℕ → ℕ → List ℕ → List ℕ
pkcs7_pad size position block = replicate size (u8 (size - position)) ++ drop size block

ansi_x923_pad : ℕ → ℕ → List ℕ → List ℕ
ansi_x923_pad size position block =
    set (replicate (size - position) 0 ++ drop (size - position) block) (size - position - 1)
      (u8 (size - position))

one_and_zeros_pad : ℕ → List ℕ → List ℕ
one_and_zeros_pad size block = 0x80 ∷ replicate (size - 1) 0 ++ drop size block

unfoldable pub pad : PaddingMethod → ℕ → ℕ → List ℕ → List ℕ
unfolding pkcs7_pad ansi_x923_pad one_and_zeros_pad
pad pkcs7 size position block = pkcs7_pad size position block
pad ansi_x923 size position block = ansi_x923_pad size position block
pad one_and_zeros size position block = one_and_zeros_pad size block

-- What `unpad` does: return a count of bytes, throw Decoding_Error, or read outside the block.
pub data Unpadded : Type 0 where
  position : ℕ → Unpadded
  decoding_error : Unpadded
  overrun : Unpadded

-- `for(j = from; j != to; ++j) if(block[j] != value) throw`, and the return behind it. The list is
-- the block from `j` on, so that it is empty where `block[j]` lies behind the block.
check_from : ℕ → ℕ → ℕ → ℕ → List ℕ → Unpadded
check_from to value result j [] = if j == to then position result else overrun
check_from to value result j (b ∷ bs) =
    let next = check_from to value result (j + 1) bs in
    if j == to then position result else if not (b == value) then decoding_error else next

-- PKCS #7 and X9.23 differ in the byte that they look for before the last one. Without a size the
-- first read is at the index -1.
unpad_counted : (ℕ → ℕ) → List ℕ → ℕ → Unpadded
unfolding check_from
unpad_counted filler block zero = overrun
unpad_counted filler block (suc n) = elim (get_elem? block n) [
  | none ↦ overrun
  | some count ↦
      if ltb (suc n) count
      then decoding_error
      else check_from n (filler count) (suc n - count) (suc n - count) (drop (suc n - count) block)
]

-- `while(size) { ... size--; }`
one_and_zeros_unpad : List ℕ → ℕ → Unpadded
one_and_zeros_unpad block zero = decoding_error
one_and_zeros_unpad block (suc n) =
    let rest = one_and_zeros_unpad block n in
    elim (get_elem? block n) [
      | none ↦ overrun
      | some b ↦ if b == 0x80 then position n else if not (b == 0x00) then decoding_error else rest
    ]

unfoldable pub unpad : PaddingMethod → List ℕ → ℕ → Unpadded
unfolding unpad_counted one_and_zeros_unpad
unpad pkcs7 block size = unpad_counted (λ count. count) block size
unpad ansi_x923 block size = unpad_counted (λ count. 0) block size
unpad one_and_zeros block size = one_and_zeros_unpad block size

unfoldable pub valid_blocksize : PaddingMethod → ℕ → Bool
valid_blocksize pkcs7 size = ltb 0 size && ltb size 256
valid_blocksize ansi_x923 size = ltb 0 size && ltb size 256
valid_blocksize one_and_zeros size = not (size == 0)
