-- ===== src/Block/LubyRackoff.antt =====
-- block/lubyrack/lubyrack.cpp: a block cipher of four Feistel rounds over a hash function.
use php_botan.Base.{ℕ, ◌+◌, ◌/◌, ◌≡◌, List, ◌++◌, take, drop, length, take-append-drop}
use php_botan.Base.Words.{IsBlock}
use php_botan.Base.XorBuf.{xor_buf, xor_buf-IsBlock, xor_buf_cancel}
use php_botan.Block.Parts.{HashFunction, left-IsBlock, right-IsBlock, left-append, right-append}

-- `K1` and `K2`.
pub record Keys : Type 0 where
  pub k1 : List ℕ
  pub k2 : List ℕ

pub key_schedule : List ℕ → Keys
key_schedule key = record {
  k1 = take (length key / 2) key;
  k2 = take (length key / 2) (drop (length key / 2) key);
}

module _ (hash : HashFunction) where
  -- `buffer` is the hash of a key and a half, and is added to the other half.
  feistel : List ℕ → List ℕ → List ℕ → List ℕ
  feistel key half other = xor_buf other (hash.digest (key ++ half)) hash.output_length

  pub enc : Keys → List ℕ → List ℕ
  unfolding feistel
  enc keys block =
      let left = take hash.output_length block in
      let right = drop hash.output_length block in
      let right1 = feistel keys.k1 left right in
      let left1 = feistel keys.k2 right1 left in
      let right2 = feistel keys.k1 left1 right1 in
      let left2 = feistel keys.k2 right2 left1 in left2 ++ right2

  pub dec : Keys → List ℕ → List ℕ
  unfolding feistel
  dec keys block =
      let left = take hash.output_length block in
      let right = drop hash.output_length block in
      let left1 = feistel keys.k2 right left in
      let right1 = feistel keys.k1 left1 right in
      let left2 = feistel keys.k2 right1 left1 in
      let right2 = feistel keys.k1 left2 right1 in left2 ++ right2

module _ (hash : HashFunction) where
  feistel-IsBlock :
      (key half other : List ℕ)
      → IsBlock hash.output_length other
      → IsBlock hash.output_length (feistel hash key half other)
  unfolding feistel
  feistel-IsBlock key half other h =
      xor_buf-IsBlock hash.output_length other (hash.digest (key ++ half)) h
        (hash.digest-IsBlock (key ++ half))

  feistel_cancel :
      (key half other : List ℕ)
      → IsBlock hash.output_length other
      → feistel hash key half (feistel hash key half other) ≡ other
  unfolding feistel
  feistel_cancel key half other h =
      xor_buf_cancel hash.output_length other (hash.digest (key ++ half)) h
        (hash.digest-IsBlock (key ++ half))

  -- Decrypting undoes encrypting, for all keys, over any hash function.
  pub dec-enc_luby_rackoff :
      (keys : Keys) (block : List ℕ)
      → IsBlock (hash.output_length + hash.output_length) block
      → dec hash keys (enc hash keys block) ≡ block
  unfolding enc dec
  dec-enc_luby_rackoff keys block h =
      rw
        (
          left-append n n left2 right2 l2 r2,
          right-append n n left2 right2 l2 r2,
          feistel_cancel keys.k2 right2 left1 l1,
          feistel_cancel keys.k1 left1 right1 r1,
          feistel_cancel keys.k2 right1 left l,
          feistel_cancel keys.k1 left right r,
        )
        (take-append-drop n block)
    where
      n : ℕ
      n = hash.output_length

      left : List ℕ
      left = take n block

      right : List ℕ
      right = drop n block

      l : IsBlock n left
      l = left-IsBlock n n block h

      r : IsBlock n right
      r = right-IsBlock n n block h

      right1 : List ℕ
      right1 = feistel hash keys.k1 left right

      r1 : IsBlock n right1
      r1 = feistel-IsBlock keys.k1 left right r

      left1 : List ℕ
      left1 = feistel hash keys.k2 right1 left

      l1 : IsBlock n left1
      l1 = feistel-IsBlock keys.k2 right1 left l

      right2 : List ℕ
      right2 = feistel hash keys.k1 left1 right1

      r2 : IsBlock n right2
      r2 = feistel-IsBlock keys.k1 left1 right1 r1

      left2 : List ℕ
      left2 = feistel hash keys.k2 right2 left1

      l2 : IsBlock n left2
      l2 = feistel-IsBlock keys.k2 right2 left1 l1
