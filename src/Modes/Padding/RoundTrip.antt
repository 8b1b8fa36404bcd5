-- ===== src/Modes/Padding/RoundTrip.antt =====
-- Unpadding a padded block gives back where the padding began, for every method.
use php_botan.Base.{
  ℕ, zero, suc, ◌+◌, ◌-◌, ◌≤◌, ◌<◌, ◌≡◌, refl, ap, ap₂, ◌∙◌, ◌%◌, ◌^◌, arith, List, [], ◌∷◌, ◌++◌,
  true, false, some, ltb, take, drop, length, length-append, get_elem?, get_elem?-get_or, replicate,
  get_or, set, length-replicate, drop-append_exact,
}
use php_botan.Modes.Padding.{
  PaddingMethod, pkcs7, ansi_x923, one_and_zeros, pad_bytes, pkcs7_pad, ansi_x923_pad,
  one_and_zeros_pad, pad, check_from, position, unpad_counted, one_and_zeros_unpad, unpad,
  valid_blocksize,
}

-- The last block as CBC_Encryption::end_msg fills it: the message's last bytes, and of what `pad`
-- writes into a buffer the first `pad_bytes`.
abbrev pub padded : PaddingMethod → ℕ → List ℕ → List ℕ → List ℕ
padded method size bytes buffer =
    bytes ++ take (pad_bytes size (length bytes)) (pad method size (length bytes) buffer)

module _ {ℓ} {A : Type ℓ} where
  get_or-append_right :
      (xs ys : List A) (i n : ℕ) (d : A) → n ≡ length xs + i → get_or (xs ++ ys) n d ≡ get_or ys i d
  get_or-append_right [] ys i n d e = ap (λ (k : ℕ). get_or ys k d) (omega arith)
  get_or-append_right (x ∷ xs) ys i zero d e = absurd (omega arith)
  get_or-append_right (x ∷ xs) ys i (suc n) d e = get_or-append_right xs ys i n d (omega arith)

  replicate_last : (k : ℕ) (v : A) → replicate (suc k) v ≡ replicate k v ++ v ∷ []
  replicate_last zero v = refl
  replicate_last (suc k) v = ap (λ t. v ∷ t) (replicate_last k v)

  take-replicate-append :
      (k n : ℕ) (v : A) (ys : List A) → k ≤ n → take k (replicate n v ++ ys) ≡ replicate k v
  take-replicate-append zero n v ys h = refl
  take-replicate-append (suc k) zero v ys h = absurd (omega arith)
  take-replicate-append (suc k) (suc n) v ys h =
      ap (λ t. v ∷ t) (take-replicate-append k n v ys (omega arith))

  take-set-replicate :
      (k : ℕ) (u v : A) (ys : List A)
      → take (suc k) (set (replicate (suc k) u ++ ys) k v) ≡ replicate k u ++ v ∷ []
  take-set-replicate zero u v ys = refl
  take-set-replicate (suc k) u v ys = ap (λ t. u ∷ t) (take-set-replicate k u v ys)

-- The loop finds the value in all of its `k` rounds.
check_from-replicate :
    (k to value result j : ℕ) (ys : List ℕ)
    → j + k ≡ to
    → check_from to value result j (replicate k value ++ ys) ≡ position result
unfolding check_from
check_from-replicate zero to value result j [] e = ground arith
check_from-replicate zero to value result j (y ∷ ys) e = ground arith
check_from-replicate (suc k) to value result j ys e =
    ground (arith, check_from-replicate k to value result (j + 1) ys (omega arith))

-- Both counting methods read back a filler and a count.
unpad_counted-count :
    (filler : ℕ → ℕ) (bytes : List ℕ) (k size : ℕ)
    → length bytes + suc k ≡ size
    → unpad_counted filler (bytes ++ (replicate k (filler (suc k)) ++ suc k ∷ [])) size
      ≡ position (length bytes)
unfolding unpad_counted
unpad_counted-count filler bytes k zero e = absurd (omega arith)
unpad_counted-count filler bytes k (suc n) e =
    rw (last, unpad_counted, within, at_end, rest)
      (check_from-replicate k n (filler (suc k)) (length bytes) (length bytes) (suc k ∷ [])
        (omega arith))
  where
    tail : List ℕ
    tail = replicate k (filler (suc k)) ++ suc k ∷ []

    at_end : suc n - suc k ≡ length bytes
    at_end = omega arith

    within : ltb (suc n) (suc k) ≡ false
    within = ground arith

    rest : drop (length bytes) (bytes ++ tail) ≡ tail
    rest = drop-append_exact bytes tail (length bytes) refl

    last : get_elem? (bytes ++ tail) n ≡ some (suc k)
    last =
        get_elem?-get_or (bytes ++ tail) n 0 (
          omega (
            arith,
            length-append bytes tail,
            length-append (replicate k (filler (suc k))) (suc k ∷ []),
            length-replicate k (filler (suc k)),
          ))
        ∙ ap some (
            get_or-append_right bytes tail k n 0 (omega arith)
            ∙ get_or-append_right (replicate k (filler (suc k))) (suc k ∷ []) 0 k 0
                (omega (arith, length-replicate k (filler (suc k)))))

get_or-replicate-zero : (i j : ℕ) → get_or {A = ℕ} (replicate j 0) i 0 ≡ 0
get_or-replicate-zero i zero = refl
get_or-replicate-zero zero (suc j) = refl
get_or-replicate-zero (suc i) (suc j) = get_or-replicate-zero i j

marked-within :
    (bytes : List ℕ) (n k j : ℕ)
    → n ≡ length bytes + k
    → k ≤ j
    → n < length (bytes ++ 0x80 ∷ replicate j 0)
marked-within bytes n k j e h =
    omega (arith, length-append bytes (0x80 ∷ replicate j 0), length-replicate {A = ℕ} j 0)

-- `n` is the index of the last byte, `k` zeros behind the mark.
one_and_zeros_unpad-zeros :
    (bytes : List ℕ) (n k j : ℕ)
    → n ≡ length bytes + k
    → k ≤ j
    → one_and_zeros_unpad (bytes ++ 0x80 ∷ replicate j 0) (suc n) ≡ position (length bytes)
unfolding one_and_zeros_unpad
one_and_zeros_unpad-zeros bytes n zero j e h =
    rw
      (
        get_elem?-get_or (bytes ++ 0x80 ∷ replicate j 0) n 0 (marked-within bytes n 0 j e h),
        one_and_zeros_unpad,
      )
      (ground (arith, get_or-append_right bytes (0x80 ∷ replicate j 0) 0 n 0 e))
one_and_zeros_unpad-zeros bytes zero (suc k) j e h = absurd (omega arith)
one_and_zeros_unpad-zeros bytes (suc n) (suc k) j e h =
    rw
      (
        get_elem?-get_or (bytes ++ 0x80 ∷ replicate j 0) (suc n) 0
            (marked-within bytes (suc n) (suc k) j e h),
        one_and_zeros_unpad,
      )
      (ground (
        arith,
        get_or-append_right bytes (0x80 ∷ replicate j 0) (suc k) (suc n) 0 e,
        get_or-replicate-zero k j,
        one_and_zeros_unpad-zeros bytes n k j (omega arith) (omega arith),
      ))

-- The tail of a padded block, `k + 1` bytes.
module _ (size k : ℕ) (bytes buffer : List ℕ) (e : length bytes + suc k ≡ size) where
  count_eq : size - length bytes ≡ suc k
  count_eq = omega arith

  pkcs7_tail :
      size < 256
      → take (size - length bytes) (pkcs7_pad size (length bytes) buffer)
        ≡ replicate k (suc k) ++ suc k ∷ []
  unfolding pkcs7_pad
  pkcs7_tail small =
      take-replicate-append (size - length bytes) size _ (drop size buffer) (omega arith)
      ∙ ap₂ replicate count_eq byte
      ∙ replicate_last k (suc k)
    where
      byte : (size - length bytes) % 2 ^ 8 ≡ suc k
      byte = omega arith

  ansi_x923_tail :
      size < 256
      → take (size - length bytes) (ansi_x923_pad size (length bytes) buffer)
        ≡ replicate k 0 ++ suc k ∷ []
  unfolding ansi_x923_pad
  ansi_x923_tail small =
      rw (count_eq, small_byte, last_index) (take-set-replicate k 0 (suc k) (drop (suc k) buffer))
    where
      small_byte : suc k % 2 ^ 8 ≡ suc k
      small_byte = omega arith

      last_index : suc k - 1 ≡ k
      last_index = omega arith

  one_and_zeros_tail :
      take (size - length bytes) (one_and_zeros_pad size buffer) ≡ 0x80 ∷ replicate k 0
  unfolding one_and_zeros_pad
  one_and_zeros_tail =
      rw count_eq
        (ap (λ t. 0x80 ∷ t) (take-replicate-append k (size - 1) 0 (drop size buffer) (omega arith)))

-- Whatever the method, if the block size is valid for it and the block is not yet full, `unpad`
-- returns the position at which `pad` began.
pub unpad-padded :
    (method : PaddingMethod) (size : ℕ) (bytes buffer : List ℕ)
    → valid_blocksize method size ≡ true
    → length bytes < size
    → unpad method (padded method size bytes buffer) size ≡ position (length bytes)
unfolding unpad pad pad_bytes valid_blocksize
unpad-padded pkcs7 size bytes buffer v h =
    ap (λ t. unpad_counted (λ count. count) (bytes ++ t) size)
      (pkcs7_tail size (size - length bytes - 1) bytes buffer (omega arith) (ground arith))
    ∙ unpad_counted-count (λ count. count) bytes (size - length bytes - 1) size (omega arith)
unpad-padded ansi_x923 size bytes buffer v h =
    ap (λ t. unpad_counted (λ count. 0) (bytes ++ t) size)
      (ansi_x923_tail size (size - length bytes - 1) bytes buffer (omega arith) (ground arith))
    ∙ unpad_counted-count (λ count. 0) bytes (size - length bytes - 1) size (omega arith)
unpad-padded one_and_zeros size bytes buffer v h =
    ap₂ one_and_zeros_unpad
      (ap (λ t. bytes ++ t)
        (one_and_zeros_tail size (size - length bytes - 1) bytes buffer (omega arith)))
      length_eq
    ∙ one_and_zeros_unpad-zeros bytes (size - 1) (size - length bytes - 1) _ (omega arith)
        (omega arith)
  where
    length_eq : size ≡ suc (size - 1)
    length_eq = omega arith
