-- ===== src/Block/Cipher.antt =====
-- What a mode of operation relies on of a keyed block cipher: `encrypt` and `decrypt` map blocks to
-- blocks and undo one another.
use php_botan.Base.{ℕ, ◌<◌, ◌≡◌, List}
use php_botan.Block.Octets.{IsBlock}

pub record BlockCipher : Type 0 where
  pub block_size : ℕ
  pub encrypt : List ℕ → List ℕ
  pub decrypt : List ℕ → List ℕ
  pub size_pos : 0 < block_size
  pub encrypt-IsBlock : (b : List ℕ) → IsBlock block_size b → IsBlock block_size (encrypt b)
  pub decrypt-IsBlock : (b : List ℕ) → IsBlock block_size b → IsBlock block_size (decrypt b)
  pub decrypt-encrypt : (b : List ℕ) → IsBlock block_size b → decrypt (encrypt b) ≡ b
  pub encrypt-decrypt : (b : List ℕ) → IsBlock block_size b → encrypt (decrypt b) ≡ b
