-- ===== src/Block/Xtea/Inverse.antt =====
-- XTEA::enc and XTEA::dec undo one another on every block, for every expanded key.
use php_botan.Base.{ℕ, ◌+◌, ◌-◌, ◌*◌, ◌≡◌, ap, arith, List, get_or}
use php_botan.Base.Words.{IsU32, load_be, add32-lt, sub32-lt, sub32-add32, add32-sub32}
use php_botan.Base.Loops.{for_range, for_range_inv, for_range_undo}
use php_botan.Block.Octets.{
  IsBlock, store_pair-IsBlock, load_be-store_pair_left, load_be-store_pair_right,
  store_pair-load_be, load_be_of_block,
}
use php_botan.Block.Cipher.{BlockCipher}
use php_botan.Block.Xtea.{State, enc_round, dec_round, enc, dec, key_schedule}

abbrev IsState : State → Type 0
IsState s = IsU32 s.0 × IsU32 s.1

enc_round-IsState : (ek : List ℕ) (j : ℕ) (s : State) → IsState s → IsState (enc_round ek j s)
unfolding enc_round
enc_round-IsState ek j (l, r) h = (add32-lt _ _, add32-lt _ _)

dec_round-IsState : (ek : List ℕ) (j : ℕ) (s : State) → IsState s → IsState (dec_round ek j s)
unfolding dec_round
dec_round-IsState ek j (l, r) h = (sub32-lt _ _, sub32-lt _ _)

-- Round `31 - j` of one loop uses the key words of round `j` of the other.
module _ (ek : List ℕ) (j i : ℕ) (meet : i + j ≡ 31) where
  odd_word : get_or ek (63 - 2 * i) 0 ≡ get_or ek (2 * j + 1) 0
  odd_word = ap (λ (n : ℕ). get_or ek n 0) (omega arith)

  even_word : get_or ek (62 - 2 * i) 0 ≡ get_or ek (2 * j) 0
  even_word = ap (λ (n : ℕ). get_or ek n 0) (omega arith)

  dec_round-enc_round : (s : State) → IsState s → dec_round ek i (enc_round ek j s) ≡ s
  unfolding enc_round dec_round
  dec_round-enc_round (l, r) (hl, hr) =
      rw (odd_word, even_word, sub32-add32 r _ hr, sub32-add32 l _ hl)

  enc_round-dec_round : (s : State) → IsState s → enc_round ek j (dec_round ek i s) ≡ s
  unfolding enc_round dec_round
  enc_round-dec_round (l, r) (hl, hr) =
      rw (odd_word, even_word, add32-sub32 l _ hl, add32-sub32 r _ hr)

-- Decrypting undoes encrypting, for every expanded key and every block.
pub dec-enc_xtea : (ek block : List ℕ) → IsBlock 8 block → dec ek (enc ek block) ≡ block
unfolding enc dec
dec-enc_xtea ek block h =
    let s : State = (load_be block 0, load_be block 1) in
    let ok : IsState s = (load_be_of_block block 0 8 h, load_be_of_block block 1 8 h) in
    let t : State = for_range 32 0 (enc_round ek) s in
    let t_ok : IsState t = for_range_inv IsState (enc_round ek) (enc_round-IsState ek) 32 0 s ok in
    rw
      (
        load_be-store_pair_left t.0 t.1 t_ok.0,
        load_be-store_pair_right t.0 t.1 t_ok.1,
        for_range_undo IsState (enc_round ek) (dec_round ek) (enc_round-IsState ek) 32 0 0
            (λ m u lt u_ok. dec_round-enc_round ek (0 + m) (0 + (32 - 1 - m)) (omega arith) u u_ok)
            s ok,
      )
      (store_pair-load_be block h)

-- Encrypting undoes decrypting, for every expanded key and every block.
pub enc-dec_xtea : (ek block : List ℕ) → IsBlock 8 block → enc ek (dec ek block) ≡ block
unfolding enc dec
enc-dec_xtea ek block h =
    let s : State = (load_be block 0, load_be block 1) in
    let ok : IsState s = (load_be_of_block block 0 8 h, load_be_of_block block 1 8 h) in
    let t : State = for_range 32 0 (dec_round ek) s in
    let t_ok : IsState t = for_range_inv IsState (dec_round ek) (dec_round-IsState ek) 32 0 s ok in
    rw
      (
        load_be-store_pair_left t.0 t.1 t_ok.0,
        load_be-store_pair_right t.0 t.1 t_ok.1,
        for_range_undo IsState (dec_round ek) (enc_round ek) (dec_round-IsState ek) 32 0 0
            (λ m u lt u_ok. enc_round-dec_round ek (0 + (32 - 1 - m)) (0 + m) (omega arith) u u_ok)
            s ok,
      )
      (store_pair-load_be block h)

-- XTEA under a key, as the cipher that a mode of operation is given.
pub xtea : List ℕ → BlockCipher
unfolding enc dec
xtea key = record {
  block_size = 8;
  encrypt = enc (key_schedule key);
  decrypt = dec (key_schedule key);
  size_pos = omega arith;
  encrypt-IsBlock = λ b h. store_pair-IsBlock _ _;
  decrypt-IsBlock = λ b h. store_pair-IsBlock _ _;
  decrypt-encrypt = dec-enc_xtea (key_schedule key);
  encrypt-decrypt = enc-dec_xtea (key_schedule key);
}
