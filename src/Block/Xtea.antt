-- ===== src/Block/Xtea.antt =====
-- block/xtea/xtea.cpp: XTEA. `ek` is the expanded key, 64 words, and a loop's state is (L, R).
pub mod Inverse
use php_botan.Base.{ℕ, ◌+◌, ◌-◌, ◌*◌, ◌%◌, List, [], ◌∷◌, get_or, set, replicate, bit_xor}
use php_botan.Base.Words.{IsU32, add32, sub32, shl32, shr32, load_be}
use php_botan.Base.Loops.{for_range}
use php_botan.Block.Octets.{store_pair}

abbrev pub State : Type 0
State = ℕ × ℕ

-- `(((x << 4) ^ (x >> 5)) + x) ^ k`
pub mix : ℕ → ℕ → ℕ
mix x k = bit_xor (add32 (bit_xor (shl32 x 4) (shr32 x 5)) x) k

pub enc_round : List ℕ → ℕ → State → State
enc_round ek j (l, r) =
    let l' = add32 l (mix r (get_or ek (2 * j) 0)) in
    let r' = add32 r (mix l' (get_or ek (2 * j + 1) 0)) in (l', r')

pub dec_round : List ℕ → ℕ → State → State
dec_round ek j (l, r) =
    let r' = sub32 r (mix l (get_or ek (63 - 2 * j) 0)) in
    let l' = sub32 l (mix r' (get_or ek (62 - 2 * j) 0)) in (l', r')

pub store : State → List ℕ
store (l, r) = store_pair l r

pub enc : List ℕ → List ℕ → List ℕ
unfolding enc_round mix store
enc ek block = store (for_range 32 0 (enc_round ek) (load_be block 0, load_be block 1))

pub dec : List ℕ → List ℕ → List ℕ
unfolding dec_round mix store
dec ek block = store (for_range 32 0 (dec_round ek) (load_be block 0, load_be block 1))

-- Round `j` of the key schedule is the source's `i` equal to `2 * j`; the state is (D, EK).
pub schedule_round : List ℕ → ℕ → ℕ × List ℕ → ℕ × List ℕ
schedule_round uk j (d, ek) =
    let first = add32 d (get_or uk (d % 4) 0) in
    let d' = add32 d 0x9E3779B9 in
    let second = add32 d' (get_or uk (shr32 d' 11 % 4) 0) in
    (d', set (set ek (2 * j) first) (2 * j + 1) second)

pub key_schedule : List ℕ → List ℕ
unfolding schedule_round
key_schedule key =
    let uk = load_be key 0 ∷ load_be key 1 ∷ load_be key 2 ∷ load_be key 3 ∷ [] in
    (for_range 32 0 (schedule_round uk) (0, replicate 64 0)).1
