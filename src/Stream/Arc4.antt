-- ===== src/Stream/Arc4.antt =====
-- stream/arc4/arc4.cpp: ARC4. `size` is the size of `buffer`, DEFAULT_BUFFERSIZE, a multiple of 4.
use php_botan.Base.{
  ℕ, zero, suc, ◌+◌, ◌-◌, ◌*◌, ◌/◌, ◌%◌, List, [], ◌∷◌, ◌++◌, length, drop, get_or, set, replicate,
  leb, ◌==◌, if◌then◌else◌,
}
use php_botan.Base.Exceptn.{Result, ok, ◌>>=◌}
use php_botan.Utils.Parsing.{to_string}
use php_botan.Base.Loops.{for_range}
use php_botan.Base.XorBuf.{xor_buf}

pub record Arc4 : Type 0 where
  pub state : List ℕ
  pub buffer : List ℕ
  pub x : ℕ
  pub y : ℕ
  pub position : ℕ

unfoldable pub clear : ℕ → Arc4
clear size = record {
  state = replicate 256 0;
  buffer = replicate size 0;
  x = 0;
  y = 0;
  position = 0;
}

-- A line group of `generate`: the byte at `j` of the buffer, from the place `i` of the state.
unfoldable pub generate_byte : ℕ → ℕ → Arc4 → Arc4
generate_byte j i a =
    let sx = get_or a.state i 0 in
    let y' = (a.y + sx) % 256 in
    let sy = get_or a.state y' 0 in
    let state' = set (set a.state i sy) y' sx in
    record a { state = state'; y = y'; buffer = set a.buffer j (get_or state' ((sx + sy) % 256) 0) }

-- A round of `generate`, for the bytes from `4 * r` on.
unfoldable pub generate_round : ℕ → Arc4 → Arc4
unfolding generate_byte
generate_round r a =
    let a1 = generate_byte (4 * r) (a.x + 1) a in
    let a2 = generate_byte (4 * r + 1) (a.x + 2) a1 in
    let a3 = generate_byte (4 * r + 2) (a.x + 3) a2 in
    let x' = (a.x + 4) % 256 in generate_byte (4 * r + 3) x' (record a3 { x = x' })

unfoldable pub generate : ℕ → Arc4 → Arc4
unfolding generate_round
generate size a = record (for_range (size / 4) 0 generate_round a) { position = 0 }

-- A round of the key setup on `state_index` and the state.
unfoldable pub key_round : List ℕ → ℕ → ℕ × List ℕ → ℕ × List ℕ
key_round key j (state_index, state) =
    let sj = get_or state j 0 in
    let index = (state_index + get_or key (j % length key) 0 + sj) % 256 in
    (index, set (set state j (get_or state index 0)) index sj)

unfoldable pub key_schedule : ℕ → ℕ → List ℕ → Arc4
unfolding clear key_round generate
key_schedule size skip key =
    let counted = for_range 256 0 (λ j s. set s j j) (clear size).state in
    let mixed = for_range 256 0 (key_round key) (0, counted) in
    let keyed = record (clear size) { state = mixed.1 } in
    let skipped = for_range (skip / size + 1) 0 (λ j a. generate size a) keyed in
    record skipped { position = skipped.position + skip % size }

-- The bytes of `out`, and the state after it. A round takes one byte at least, `position` being below
-- `size`.
unfoldable pub cipher_loop : ℕ → ℕ → Arc4 → List ℕ → List ℕ × Arc4
unfolding generate
cipher_loop size zero a input = (
  xor_buf input (drop a.position a.buffer) (length input),
  record a { position = a.position + length input },
)
cipher_loop size (suc fuel) a input =
    let left = size - a.position in
    let last : List ℕ × Arc4 = (
      xor_buf input (drop a.position a.buffer) (length input),
      record a { position = a.position + length input },
    ) in
    let next = cipher_loop size fuel (generate size a) (drop left input) in
    if leb left (length input)
    then (xor_buf input (drop a.position a.buffer) left ++ next.0, next.1)
    else last

unfoldable pub cipher : ℕ → Arc4 → List ℕ → List ℕ × Arc4
unfolding cipher_loop
cipher size a input = cipher_loop size (length input) a input

-- `name()`, with the characters of the texts.
pub name : ℕ → Result (List ℕ)
name skip =
    if skip == 0
    then ok (b'A' ∷ b'R' ∷ b'C' ∷ b'4' ∷ [])
    else if skip == 256
    then ok (b'M' ∷ b'A' ∷ b'R' ∷ b'K' ∷ b'-' ∷ b'4' ∷ [])
    else to_string skip 0 >>= λ number.
        ok (b'R' ∷ b'C' ∷ b'4' ∷ b'_' ∷ b's' ∷ b'k' ∷ b'i' ∷ b'p' ∷ b'(' ∷ number ++ b')' ∷ [])
