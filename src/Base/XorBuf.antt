-- ===== src/Base/XorBuf.antt =====
-- utils/xor_buf.h: `xor_buf` works on eight bytes at a time, and then on the bytes that are left.
pub mod Exact
use php_botan.Base.{
  ℕ, zero, suc, ◌+◌, ◌-◌, ◌≤◌, ◌<◌, ◌≡◌, refl, sym, ap, ap₂, ◌∙◌, arith, List, [], ◌∷◌, ◌++◌,
  Option, none, some, Bool-cases, inl, inr, leb, if◌then◌else◌, length, take, drop, All, get_or,
  get_elem?, get_elem?-get_or, length-drop, take_all, take-take, drop-take, drop_head, bit_xor,
}
use php_botan.Base.Bits.{bit_xor-lt, bit_xor_cancel}
use php_botan.Base.Words.{IsByte, IsBlock}

-- `for(j = 0; j != length; ++j) out[j] = in[j] ^ in2[j];`
unfoldable pub xor_bytes : List ℕ → List ℕ → List ℕ
xor_bytes [] ys = []
xor_bytes (x ∷ xs) [] = []
xor_bytes (x ∷ xs) (y ∷ ys) = bit_xor x y ∷ xor_bytes xs ys

xor_both : Option ℕ → Option ℕ → Option ℕ
xor_both none y = none
xor_both (some x) none = none
xor_both (some x) (some y) = some (bit_xor x y)

-- `in[j] ^ in2[j]`, or `none` where `j` lies behind a buffer.
xor_at : List ℕ → List ℕ → ℕ → Option ℕ
unfolding xor_both
xor_at xs ys j = xor_both (get_elem? xs j) (get_elem? ys j)

put_first : Option ℕ → Option (List ℕ) → Option (List ℕ)
put_first none bs = none
put_first (some b) none = none
put_first (some b) (some bs) = some (b ∷ bs)

put_before : Option (List ℕ) → Option (List ℕ) → Option (List ℕ)
put_before none cs = none
put_before (some bs) none = none
put_before (some bs) (some cs) = some (bs ++ cs)

-- `for(j = 0; j != length; ++j) out[j] = in[j] ^ in2[j];` over `k` bytes from `j` on.
xor_from : ℕ → ℕ → List ℕ → List ℕ → Option (List ℕ)
unfolding xor_at put_first
xor_from zero j xs ys = some []
xor_from (suc k) j xs ys = put_first (xor_at xs ys j) (xor_from k (j + 1) xs ys)

-- The eight assignments of a round. The load of 64 bits reads and writes the same bytes.
xor_eight : List ℕ → List ℕ → Option (List ℕ)
unfolding xor_at put_first
xor_eight xs ys = put_first (xor_at xs ys 0) (
    put_first (xor_at xs ys 1) (
      put_first (xor_at xs ys 2) (
        put_first (xor_at xs ys 3) (
          put_first (xor_at xs ys 4) (
            put_first (xor_at xs ys 5)
              (put_first (xor_at xs ys 6) (put_first (xor_at xs ys 7) (some []))))))))

-- `while(length >= 8) { ... in += 8; in2 += 8; out += 8; length -= 8; }` and the loop behind it. A
-- round takes eight bytes, so that one round more than bytes is fuel enough.
xor_loop : ℕ → List ℕ → List ℕ → ℕ → Option (List ℕ)
unfolding xor_eight xor_from put_before
xor_loop zero xs ys n = none
xor_loop (suc fuel) xs ys n =
    let rest = xor_loop fuel (drop 8 xs) (drop 8 ys) (n - 8) in
    if leb 8 n then put_before (xor_eight xs ys) rest else xor_from n 0 xs ys

-- The bytes that a call on `n` bytes writes, or `none` where it reads behind a buffer.
unfoldable pub xor_checked : List ℕ → List ℕ → ℕ → Option (List ℕ)
unfolding xor_loop
xor_checked xs ys n = xor_loop (suc n) xs ys n

-- The same for callers whose buffers have `n` bytes at least.
unfoldable pub xor_buf : List ℕ → List ℕ → ℕ → List ℕ
unfolding xor_checked
xor_buf xs ys n = elim (xor_checked xs ys n) [ none ↦ [] | some out ↦ out ]

xor_bytes-take-drop :
    (k : ℕ) (xs ys : List ℕ)
    → xor_bytes (take k xs) (take k ys) ++ xor_bytes (drop k xs) (drop k ys) ≡ xor_bytes xs ys
unfolding xor_bytes
xor_bytes-take-drop zero xs ys = refl
xor_bytes-take-drop (suc k) [] ys = refl
xor_bytes-take-drop (suc k) (x ∷ xs) [] = tail_empty (drop k xs)
  where
    tail_empty : (zs : List ℕ) → xor_bytes zs [] ≡ []
    tail_empty [] = refl
    tail_empty (z ∷ zs) = refl
xor_bytes-take-drop (suc k) (x ∷ xs) (y ∷ ys) =
    ap (λ t. bit_xor x y ∷ t) (xor_bytes-take-drop k xs ys)

-- Eight bytes and then the others, of `n`.
xor_bytes-split :
    (n : ℕ) (xs ys : List ℕ)
    → 8 ≤ n
    → xor_bytes (take 8 xs) (take 8 ys)
        ++ xor_bytes (take (n - 8) (drop 8 xs)) (take (n - 8) (drop 8 ys))
      ≡ xor_bytes (take n xs) (take n ys)
xor_bytes-split n xs ys h =
    ap₂ ◌++◌ (ap₂ xor_bytes (sym (take-take 8 n xs h)) (sym (take-take 8 n ys h)))
      (ap₂ xor_bytes (sym (drop-take 8 n xs h)) (sym (drop-take 8 n ys h)))
    ∙ xor_bytes-take-drop 8 (take n xs) (take n ys)

xor_at-within :
    (xs ys : List ℕ) (j : ℕ)
    → j < length xs
    → j < length ys
    → xor_at xs ys j ≡ some (bit_xor (get_or xs j 0) (get_or ys j 0))
unfolding xor_at
xor_at-within xs ys j h g = rw (get_elem?-get_or xs j 0 h, get_elem?-get_or ys j 0 g, xor_at) refl

xor_from-xor_bytes :
    (k j : ℕ) (xs ys : List ℕ)
    → j + k ≤ length xs
    → j + k ≤ length ys
    → xor_from k j xs ys ≡ some (xor_bytes (take k (drop j xs)) (take k (drop j ys)))
unfolding xor_from xor_bytes
xor_from-xor_bytes zero j xs ys h g = refl
xor_from-xor_bytes (suc k) j xs ys h g =
    rw
      (
        xor_at-within xs ys j (omega arith) (omega arith),
        xor_from-xor_bytes k (j + 1) xs ys (omega arith) (omega arith),
        drop_head j xs 0 (omega arith),
        drop_head j ys 0 (omega arith),
      )
      refl

xor_loop-xor_bytes :
    (fuel : ℕ) (xs ys : List ℕ) (n : ℕ)
    → n < fuel
    → n ≤ length xs
    → n ≤ length ys
    → xor_loop fuel xs ys n ≡ some (xor_bytes (take n xs) (take n ys))
unfolding xor_loop
xor_loop-xor_bytes zero xs ys n f h g = absurd (omega arith)
xor_loop-xor_bytes (suc fuel) xs ys n f h g = elim (Bool-cases (leb 8 n)) [
  | inl more ↦
      let enough : 8 ≤ n = ground arith in
      let first : xor_eight xs ys ≡ some (xor_bytes (take 8 xs) (take 8 ys)) =
        xor_from-xor_bytes 8 0 xs ys (omega arith) (omega arith) in
      let rest =
        xor_loop-xor_bytes fuel (drop 8 xs) (drop 8 ys) (n - 8) (omega arith)
          (omega (arith, length-drop 8 xs)) (omega (arith, length-drop 8 ys)) in
      rw (more, first, rest) (ap some (xor_bytes-split n xs ys enough))
  | inr last ↦ rw last (xor_from-xor_bytes n 0 xs ys (omega arith) (omega arith))
]

-- On buffers of `n` bytes at least, the unrolled loop and the one behind it stay within the buffers
-- and write the byte-wise exclusive or of their first `n` bytes.
pub xor_checked-xor_bytes :
    (xs ys : List ℕ) (n : ℕ)
    → n ≤ length xs
    → n ≤ length ys
    → xor_checked xs ys n ≡ some (xor_bytes (take n xs) (take n ys))
unfolding xor_checked
xor_checked-xor_bytes xs ys n h g = xor_loop-xor_bytes (suc n) xs ys n (omega arith) h g

module _ where
  pub length-xor_bytes :
      (xs ys : List ℕ) → length xs ≡ length ys → length (xor_bytes xs ys) ≡ length xs
  unfolding xor_bytes
  length-xor_bytes [] ys e = refl
  length-xor_bytes (x ∷ xs) [] e = absurd (omega arith)
  length-xor_bytes (x ∷ xs) (y ∷ ys) e = ap suc (length-xor_bytes xs ys (omega arith))

  pub xor_bytes-IsByte :
      (xs ys : List ℕ) → All IsByte xs → All IsByte ys → All IsByte (xor_bytes xs ys)
  unfolding xor_bytes
  xor_bytes-IsByte [] ys h k = tt
  xor_bytes-IsByte (x ∷ xs) [] h k = tt
  xor_bytes-IsByte (x ∷ xs) (y ∷ ys) (h, hs) (k, ks) =
      (bit_xor-lt 8 x y h k, xor_bytes-IsByte xs ys hs ks)

  pub xor_bytes_cancel :
      (xs ys : List ℕ)
      → length xs ≡ length ys
      → All IsByte xs
      → All IsByte ys
      → xor_bytes (xor_bytes xs ys) ys ≡ xs
  unfolding xor_bytes
  xor_bytes_cancel [] ys e h k = refl
  xor_bytes_cancel (x ∷ xs) [] e h k = absurd (omega arith)
  xor_bytes_cancel (x ∷ xs) (y ∷ ys) e (h, hs) (k, ks) =
      ap₂ ◌∷◌ (bit_xor_cancel 8 x y h k) (xor_bytes_cancel xs ys (omega arith) hs ks)

-- The laws of `xor_buf` on buffers of `n` bytes.
module _ (n : ℕ) (xs ys : List ℕ) (h : IsBlock n xs) (k : IsBlock n ys) where
  xor_buf-whole : xor_buf xs ys n ≡ xor_bytes xs ys
  unfolding xor_buf
  xor_buf-whole =
      rw (xor_checked-xor_bytes xs ys n (omega arith) (omega arith), xor_buf)
        (ap₂ xor_bytes (take_all n xs (omega arith)) (take_all n ys (omega arith)))

  pub xor_buf-IsBlock : IsBlock n (xor_buf xs ys n)
  xor_buf-IsBlock =
      rw xor_buf-whole
        (omega (arith, length-xor_bytes xs ys (omega arith)), xor_bytes-IsByte xs ys h.1 k.1)

-- The same buffer twice cancels.
pub xor_buf_cancel :
    (n : ℕ) (xs ys : List ℕ) → IsBlock n xs → IsBlock n ys → xor_buf (xor_buf xs ys n) ys n ≡ xs
xor_buf_cancel n xs ys h k =
    xor_buf-whole n (xor_buf xs ys n) ys (xor_buf-IsBlock n xs ys h k) k
    ∙ ap (λ t. xor_bytes t ys) (xor_buf-whole n xs ys h k)
    ∙ xor_bytes_cancel xs ys (omega arith) h.1 k.1
