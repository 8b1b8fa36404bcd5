-- ===== src/Block/Tea/Inverse.antt =====
-- TEA::enc and TEA::dec undo one another on every block, for every key.
use php_botan.Base.{ℕ, zero, suc, ◌+◌, ◌-◌, ◌*◌, ◌%◌, ◌^◌, ◌≡◌, sym, ap, ◌∙◌, arith, List}
use php_botan.Base.Words.{
  IsU32, add32, sub32, load_be, add32-lt, sub32-lt, sub32-add32, add32-sub32,
}
use php_botan.Base.Loops.{for_range, for_range_inv, for_range_undo_each}
use php_botan.Block.Octets.{
  IsBlock, store_pair-IsBlock, load_be-store_pair_left, load_be-store_pair_right,
  store_pair-load_be, load_be_of_block,
}
use php_botan.Block.Cipher.{BlockCipher}
use php_botan.Block.Tea.{State, IsState, enc_round, dec_round, store, enc, dec, key_schedule}

enc_round-IsState : (k : List ℕ) (j : ℕ) (s : State) → IsState s → IsState (enc_round k j s)
unfolding enc_round
enc_round-IsState k j (s, l, r) h = (add32-lt _ _, add32-lt _ _, add32-lt _ _)

dec_round-IsState : (k : List ℕ) (j : ℕ) (s : State) → IsState s → IsState (dec_round k j s)
unfolding dec_round
dec_round-IsState k j (s, l, r) h = (sub32-lt _ _, sub32-lt _ _, sub32-lt _ _)

dec_round-enc_round :
    (k : List ℕ) (i j : ℕ) (s : State) → IsState s → dec_round k i (enc_round k j s) ≡ s
unfolding enc_round dec_round
dec_round-enc_round k i j (s, l, r) (hs, hl, hr) =
    rw (sub32-add32 r _ hr, sub32-add32 l _ hl, sub32-add32 s _ hs)

enc_round-dec_round :
    (k : List ℕ) (i j : ℕ) (s : State) → IsState s → enc_round k i (dec_round k j s) ≡ s
unfolding enc_round dec_round
enc_round-dec_round k i j (s, l, r) (hs, hl, hr) =
    rw (add32-sub32 s _ hs, add32-sub32 l _ hl, add32-sub32 r _ hr)

-- After `n` rounds S has grown, or shrunk, by `n` times the constant.
enc_sum :
    (k : List ℕ) (n i s l r : ℕ)
    → IsU32 s
    → (for_range n i (enc_round k) (s, l, r)).0 ≡ (s + n * 0x9E3779B9) % 2 ^ 32
unfolding for_range enc_round add32
enc_sum k zero i s l r h = omega arith
enc_sum k (suc n) i s l r h = enc_sum k n (i + 1) _ _ _ (omega arith) ∙ omega arith

dec_sum_step :
    (t n s : ℕ)
    → IsU32 s
    → (t + n * 0x9E3779B9) % 2 ^ 32 ≡ (s + 2 ^ 32 - 0x9E3779B9 % 2 ^ 32) % 2 ^ 32
    → (t + suc n * 0x9E3779B9) % 2 ^ 32 ≡ s
dec_sum_step t n s h e = omega arith

dec_sum :
    (k : List ℕ) (n i s l r : ℕ)
    → IsU32 s
    → ((for_range n i (dec_round k) (s, l, r)).0 + n * 0x9E3779B9) % 2 ^ 32 ≡ s
unfolding for_range dec_round sub32
dec_sum k zero i s l r h = omega arith
dec_sum k (suc n) i s l r h =
    dec_sum_step (for_range (suc n) i (dec_round k) (s, l, r)).0 n s h
      (dec_sum k n (i + 1) ((s + 2 ^ 32 - 0x9E3779B9 % 2 ^ 32) % 2 ^ 32) _ _ (omega arith))

-- A loop's state after its words were stored and loaded again.
reload :
    (t : State) (c : ℕ)
    → t.0 ≡ c
    → IsState t
    → ◌≡◌ {A = State} (c, load_be (store t) 0, load_be (store t) 1) t
unfolding store
reload t c e ok =
    λ i. (sym e i, load_be-store_pair_left t.1 t.2 ok.1 i, load_be-store_pair_right t.1 t.2 ok.2 i)

sum_start : (t : ℕ) → IsU32 t → (t + 32 * 0x9E3779B9) % 2 ^ 32 ≡ 0xC6EF3720 → t ≡ 0
sum_start t h e = omega arith

-- Decrypting undoes encrypting, for every key and every block.
pub dec-enc_tea : (k block : List ℕ) → IsBlock 8 block → dec k (enc k block) ≡ block
unfolding enc dec
dec-enc_tea k block h =
    let s : State = (0, load_be block 0, load_be block 1) in
    let ok : IsState s =
      (omega arith, load_be_of_block block 0 8 h, load_be_of_block block 1 8 h) in
    let t : State = for_range 32 0 (enc_round k) s in
    let t_ok : IsState t = for_range_inv IsState (enc_round k) (enc_round-IsState k) 32 0 s ok in
    let sum : t.0 ≡ 0xC6EF3720 = enc_sum k 32 0 0 _ _ (omega arith) in
    ap (λ (u : State). store (for_range 32 0 (dec_round k) u)) (reload t _ sum t_ok)
    ∙ ap store (
        for_range_undo_each IsState (enc_round k) (dec_round k) (enc_round-IsState k)
          (dec_round-enc_round k) 32 0 0 s ok)
    ∙ store_pair-load_be block h

-- Encrypting undoes decrypting, for every key and every block.
pub enc-dec_tea : (k block : List ℕ) → IsBlock 8 block → enc k (dec k block) ≡ block
unfolding enc dec
enc-dec_tea k block h =
    let s : State = (0xC6EF3720, load_be block 0, load_be block 1) in
    let ok : IsState s =
      (omega arith, load_be_of_block block 0 8 h, load_be_of_block block 1 8 h) in
    let t : State = for_range 32 0 (dec_round k) s in
    let t_ok : IsState t = for_range_inv IsState (dec_round k) (dec_round-IsState k) 32 0 s ok in
    let sum : t.0 ≡ 0 =
      sum_start t.0 t_ok.0
        (dec_sum k 32 0 0xC6EF3720 (load_be block 0) (load_be block 1) (omega arith)) in
    ap (λ (u : State). store (for_range 32 0 (enc_round k) u)) (reload t _ sum t_ok)
    ∙ ap store (
        for_range_undo_each IsState (dec_round k) (enc_round k) (dec_round-IsState k)
          (enc_round-dec_round k) 32 0 0 s ok)
    ∙ store_pair-load_be block h

-- TEA under a key, as the cipher that a mode of operation is given.
pub tea : List ℕ → BlockCipher
unfolding enc dec
tea key = record {
  block_size = 8;
  encrypt = enc (key_schedule key);
  decrypt = dec (key_schedule key);
  size_pos = omega arith;
  encrypt-IsBlock = λ b h. store_pair-IsBlock _ _;
  decrypt-IsBlock = λ b h. store_pair-IsBlock _ _;
  decrypt-encrypt = dec-enc_tea (key_schedule key);
  encrypt-decrypt = enc-dec_tea (key_schedule key);
}
