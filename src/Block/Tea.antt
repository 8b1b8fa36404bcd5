-- ===== src/Block/Tea.antt =====
-- block/tea/tea.cpp: TEA. `K` is the four words of the key, and the state of a loop is (S, L, R).
pub mod Inverse
use php_botan.Base.{ℕ, List, [], ◌∷◌, get_or, bit_xor}
use php_botan.Base.Words.{IsU32, add32, sub32, shl32, shr32, load_be}
use php_botan.Base.Loops.{for_range}
use php_botan.Block.Octets.{store_pair}

-- `((x << 4) + k0) ^ (x + s) ^ ((x >> 5) + k1)`
pub mix : ℕ → ℕ → ℕ → ℕ → ℕ
mix x s k0 k1 = bit_xor (bit_xor (add32 (shl32 x 4) k0) (add32 x s)) (add32 (shr32 x 5) k1)

abbrev pub State : Type 0
State = ℕ × ℕ × ℕ

pub enc_round : List ℕ → ℕ → State → State
enc_round k j (s, l, r) =
    let s' = add32 s 0x9E3779B9 in
    let l' = add32 l (mix r s' (get_or k 0 0) (get_or k 1 0)) in
    let r' = add32 r (mix l' s' (get_or k 2 0) (get_or k 3 0)) in (s', l', r')

pub dec_round : List ℕ → ℕ → State → State
dec_round k j (s, l, r) =
    let r' = sub32 r (mix l s (get_or k 2 0) (get_or k 3 0)) in
    let l' = sub32 l (mix r' s (get_or k 0 0) (get_or k 1 0)) in
    let s' = sub32 s 0x9E3779B9 in (s', l', r')

pub store : State → List ℕ
store (s, l, r) = store_pair l r

pub enc : List ℕ → List ℕ → List ℕ
unfolding enc_round mix store
enc k block = store (for_range 32 0 (enc_round k) (0, load_be block 0, load_be block 1))

pub dec : List ℕ → List ℕ → List ℕ
unfolding dec_round mix store
dec k block = store (for_range 32 0 (dec_round k) (0xC6EF3720, load_be block 0, load_be block 1))

pub key_schedule : List ℕ → List ℕ
key_schedule key = load_be key 0 ∷ load_be key 1 ∷ load_be key 2 ∷ load_be key 3 ∷ []

abbrev pub IsState : State → Type 0
IsState s = IsU32 s.0 × IsU32 s.1 × IsU32 s.2
