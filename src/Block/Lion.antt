-- ===== src/Block/Lion.antt =====
-- block/lion/lion.cpp: a block cipher of a wide block over a hash function and a stream cipher.
-- LEFT_SIZE is the hash function's output length, and the rest of the block is the right half.
use php_botan.Base.{
  ℕ, ◌+◌, ◌-◌, ◌*◌, ◌/◌, ◌≤◌, ◌≡◌, arith, List, ◌++◌, take, drop, length, take-append-drop,
  replicate, min, ltb, if◌then◌else◌,
}
use php_botan.Base.Words.{IsBlock}
use php_botan.Base.XorBuf.{xor_buf, xor_buf-IsBlock, xor_buf_cancel}
use php_botan.Block.Parts.{
  HashFunction, StreamCipher, left-IsBlock, right-IsBlock, left-append, right-append,
}

-- `key1` and `key2`, each of LEFT_SIZE bytes.
pub record Keys : Type 0 where
  pub key1 : List ℕ
  pub key2 : List ℕ

-- BLOCK_SIZE as the constructor computes it from the two sizes. It always has room for the two
-- halves, so the constructor's first `throw` is never reached.
pub block_size : ℕ → ℕ → ℕ
block_size output_length block_len =
    if ltb (2 * output_length + 1) block_len then block_len else 2 * output_length + 1

-- `k.clear(); k.copy(bytes, n)` on a vector of `left_size` bytes.
copy_key : ℕ → ℕ → List ℕ → List ℕ
copy_key left_size n bytes = take n bytes ++ replicate (left_size - n) 0

pub key_schedule : ℕ → List ℕ → Keys
unfolding copy_key
key_schedule left_size key =
    let half = length key / 2 in
    record {
      key1 = copy_key left_size (min half left_size) key;
      key2 = copy_key left_size (min half left_size) (drop half key);
    }

module _ (hash : HashFunction) (cipher : StreamCipher) where
  pub enc : Keys → List ℕ → List ℕ
  enc keys block =
      let n = hash.output_length in
      let left = take n block in
      let right = drop n block in
      let right1 = cipher.crypt (xor_buf left keys.key1 n) right in
      let left1 = xor_buf left (hash.digest right1) n in
      let right2 = cipher.crypt (xor_buf left1 keys.key2 n) right1 in left1 ++ right2

  pub dec : Keys → List ℕ → List ℕ
  dec keys block =
      let n = hash.output_length in
      let left = take n block in
      let right = drop n block in
      let right1 = cipher.crypt (xor_buf left keys.key2 n) right in
      let left1 = xor_buf left (hash.digest right1) n in
      let right2 = cipher.crypt (xor_buf left1 keys.key1 n) right1 in left1 ++ right2

-- The block size leaves at least one byte more on the right than on the left.
pub block_size-bounds : (n len : ℕ) → (2 * n + 1 ≤ block_size n len) × (len ≤ block_size n len)
unfolding block_size
block_size-bounds n len = ground arith

module _ (hash : HashFunction) (cipher : StreamCipher) where
  -- Decrypting undoes encrypting, for all keys and every size of the right half.
  pub dec-enc_lion :
      (keys : Keys) (k : ℕ) (block : List ℕ)
      → IsBlock (hash.output_length + k) block
      → dec hash cipher keys (enc hash cipher keys block) ≡ block
  unfolding enc dec
  dec-enc_lion keys k block h =
      rw
        (
          left-append n k left1 right2 l1 r2,
          right-append n k left1 right2 l1 r2,
          cipher.crypt-crypt k (xor_buf left1 keys.key2 n) right1 r1,
          xor_buf_cancel n left (hash.digest right1) l (hash.digest-IsBlock right1),
          cipher.crypt-crypt k (xor_buf left keys.key1 n) right r,
        )
        (take-append-drop n block)
    where
      n : ℕ
      n = hash.output_length

      left : List ℕ
      left = take n block

      right : List ℕ
      right = drop n block

      l : IsBlock n left
      l = left-IsBlock n k block h

      r : IsBlock k right
      r = right-IsBlock n k block h

      right1 : List ℕ
      right1 = cipher.crypt (xor_buf left keys.key1 n) right

      r1 : IsBlock k right1
      r1 = cipher.crypt-IsBlock k (xor_buf left keys.key1 n) right r

      left1 : List ℕ
      left1 = xor_buf left (hash.digest right1) n

      l1 : IsBlock n left1
      l1 = xor_buf-IsBlock n left (hash.digest right1) l (hash.digest-IsBlock right1)

      right2 : List ℕ
      right2 = cipher.crypt (xor_buf left1 keys.key2 n) right1

      r2 : IsBlock k right2
      r2 = cipher.crypt-IsBlock k (xor_buf left1 keys.key2 n) right1 r1
