-- ===== src/Block/Tests.antt =====
-- The block ciphers at concrete keys and blocks.
use php_botan.Base.{
  ℕ, zero, suc, ◌+◌, ◌*◌, ◌%◌, ◌≡◌, refl, sym, ap, ◌∙◌, arith, List, [], ◌∷◌, length, replicate,
  length-replicate, All,
}
use php_botan.Base.Words.{IsByte, IsBlock}
use php_botan.Base.XorBuf.{xor_bytes, xor_bytes-IsByte, length-xor_bytes, xor_bytes_cancel}
use php_botan.Base.Tables.{are_bytes_sound}
use php_botan.Block.Parts.{HashFunction, StreamCipher}
use php_botan.Block.Tea
use php_botan.Block.Tea.Inverse.{dec-enc_tea}
use php_botan.Block.Xtea
use php_botan.Block.Xtea.Inverse.{dec-enc_xtea}
use php_botan.Block.LubyRackoff
use php_botan.Block.LubyRackoff.{dec-enc_luby_rackoff}
use php_botan.Block.Lion
use php_botan.Block.Lion.{dec-enc_lion}

abbrev key_bytes : List ℕ
key_bytes = 0 ∷ 1 ∷ 2 ∷ 3 ∷ 4 ∷ 5 ∷ 6 ∷ 7 ∷ 8 ∷ 9 ∷ 10 ∷ 11 ∷ 12 ∷ 13 ∷ 14 ∷ 15 ∷ []

abbrev plain : List ℕ
plain = 0x41 ∷ 0x42 ∷ 0x43 ∷ 0x44 ∷ 0x45 ∷ 0x46 ∷ 0x47 ∷ 0xFF ∷ []

plain-IsBlock : IsBlock 8 plain
plain-IsBlock = (refl, are_bytes_sound plain refl)

dec-enc_tea_example :
    Tea.dec (Tea.key_schedule key_bytes) (Tea.enc (Tea.key_schedule key_bytes) plain) ≡ plain
dec-enc_tea_example = dec-enc_tea (Tea.key_schedule key_bytes) plain plain-IsBlock

dec-enc_xtea_example :
    Xtea.dec (Xtea.key_schedule key_bytes) (Xtea.enc (Xtea.key_schedule key_bytes) plain) ≡ plain
dec-enc_xtea_example = dec-enc_xtea (Xtea.key_schedule key_bytes) plain plain-IsBlock

-- Four bytes of a hash: sums of the message, weighted.
sum_of : List ℕ → ℕ
sum_of [] = 1
sum_of (b ∷ bs) = (b + 3 * sum_of bs) % 256

abbrev weights : HashFunction
weights = record {
  output_length = 4;
  digest = λ m. sum_of m % 256 ∷ sum_of (7 ∷ m) % 256 ∷ sum_of (9 ∷ m) % 256 ∷ 0 ∷ [];
  digest-IsBlock = λ m. (refl, (omega arith, (omega arith, (omega arith, (omega arith, tt)))));
}

-- A key stream that repeats one byte, the sum of the key.
abbrev stream : List ℕ → ℕ → List ℕ
stream key n = replicate n (sum_of key % 256)

stream-IsBytes : (n : ℕ) (key : List ℕ) → All IsByte (stream key n)
stream-IsBytes zero key = tt
stream-IsBytes (suc n) key = (omega arith, stream-IsBytes n key)

module _ (key m : List ℕ) where
  same_size : length m ≡ length (stream key (length m))
  same_size = sym (length-replicate (length m) (sum_of key % 256))

  masked_size : length (xor_bytes m (stream key (length m))) ≡ length m
  masked_size = length-xor_bytes m (stream key (length m)) same_size

abbrev masking : StreamCipher
masking = record {
  crypt = λ key m. xor_bytes m (stream key (length m));
  crypt-IsBlock = λ n key m h. (
    masked_size key m ∙ h.0,
    xor_bytes-IsByte m (stream key (length m)) h.1 (stream-IsBytes (length m) key),
  );
  crypt-crypt = λ n key m h.
      ap (λ (k : ℕ). xor_bytes (xor_bytes m (stream key (length m))) (stream key k))
        (masked_size key m)
      ∙ xor_bytes_cancel m (stream key (length m)) (same_size key m) h.1
          (stream-IsBytes (length m) key);
}

dec-enc_luby_rackoff_example :
    LubyRackoff.dec weights
      (LubyRackoff.key_schedule key_bytes)
      (LubyRackoff.enc weights (LubyRackoff.key_schedule key_bytes) plain)
    ≡ plain
dec-enc_luby_rackoff_example =
    dec-enc_luby_rackoff weights (LubyRackoff.key_schedule key_bytes) plain plain-IsBlock

abbrev wide_block : List ℕ
wide_block = 1 ∷ plain

wide_block-IsBlock : IsBlock (4 + 5) wide_block
wide_block-IsBlock = (refl, (omega arith, plain-IsBlock.1))

dec-enc_lion_example :
    Lion.dec weights masking
      (Lion.key_schedule 4 key_bytes)
      (Lion.enc weights masking (Lion.key_schedule 4 key_bytes) wide_block)
    ≡ wide_block
dec-enc_lion_example =
    dec-enc_lion weights masking (Lion.key_schedule 4 key_bytes) 5 wide_block wide_block-IsBlock
