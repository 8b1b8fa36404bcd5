-- ===== src/Base/XorBuf/Exact.antt =====
-- `xor_buf` on buffers of any size: where it reads behind them, and what it writes else.
use php_botan.Base.{
  ℕ, zero, suc, ◌+◌, ◌-◌, ◌≤◌, ◌<◌, ◌≡◌, ◌⊎◌, refl, ap, ◌∙◌, arith, List, Option, none, some,
  Bool-cases, inl, inr, ◌&&◌, leb, ltb, if◌then◌else◌, length, take, drop, get_elem?,
  get_elem?-behind, length-drop,
}
use php_botan.Base.XorBuf.{
  xor_bytes, xor_both, xor_at, put_first, put_before, xor_from, xor_eight, xor_loop, xor_checked,
  xor_checked-xor_bytes,
}

put_first-none : (o : Option ℕ) → put_first o none ≡ none
unfolding put_first
put_first-none none = refl
put_first-none (some b) = refl

put_before-none : (o : Option (List ℕ)) → put_before o none ≡ none
unfolding put_before
put_before-none none = refl
put_before-none (some bs) = refl

-- One of the buffers has fewer than `n` bytes.
abbrev Short : List ℕ → List ℕ → ℕ → Type 0
Short xs ys n = (length xs < n) ⊎ (length ys < n)

xor_both-none : (x : Option ℕ) → xor_both x none ≡ none
unfolding xor_both
xor_both-none none = refl
xor_both-none (some x) = refl

xor_at-behind : (xs ys : List ℕ) (j : ℕ) → Short xs ys (j + 1) → xor_at xs ys j ≡ none
unfolding xor_at xor_both
xor_at-behind xs ys j (inl h) =
    ap (λ x. xor_both x (get_elem? ys j)) (get_elem?-behind xs j (omega arith))
xor_at-behind xs ys j (inr h) =
    ap (xor_both (get_elem? xs j)) (get_elem?-behind ys j (omega arith))
    ∙ xor_both-none (get_elem? xs j)

xor_from-behind :
    (k j : ℕ) (xs ys : List ℕ)
    → j ≤ length xs
    → j ≤ length ys
    → Short xs ys (j + k)
    → xor_from k j xs ys ≡ none
unfolding xor_from put_first
xor_from-behind zero j xs ys h g short = absurd (ground arith)
xor_from-behind (suc k) j xs ys h g short =
    elim (Bool-cases (ltb j (length xs) && ltb j (length ys))) [
      | inl within ↦
          let rest = xor_from-behind k (j + 1) xs ys (ground arith) (ground arith) (ground arith) in
          ap (put_first (xor_at xs ys j)) rest ∙ put_first-none (xor_at xs ys j)
      | inr behind ↦
          ap (λ o. put_first o (xor_from k (j + 1) xs ys)) (xor_at-behind xs ys j (ground arith))
    ]

-- A round, by what the rest of the loop gives.
round-behind :
    (xs ys : List ℕ) (n : ℕ) (rest : Option (List ℕ))
    → 8 ≤ n
    → Short xs ys n
    → (Short (drop 8 xs) (drop 8 ys) (n - 8) → rest ≡ none)
    → put_before (xor_eight xs ys) rest ≡ none
unfolding xor_eight xor_from put_before
round-behind xs ys n rest enough short behind =
    elim (Bool-cases (leb 8 (length xs) && leb 8 (length ys))) [
      | inl within ↦
          let left : Short (drop 8 xs) (drop 8 ys) (n - 8) =
            ground (arith, length-drop 8 xs, length-drop 8 ys) in
          ap (put_before (xor_eight xs ys)) (behind left) ∙ put_before-none (xor_eight xs ys)
      | inr outside ↦
          let first : xor_eight xs ys ≡ none =
            xor_from-behind 8 0 xs ys (omega arith) (omega arith) (ground arith) in
          ap (λ o. put_before o rest) first
    ]

xor_loop-behind :
    (fuel : ℕ) (xs ys : List ℕ) (n : ℕ) → n < fuel → Short xs ys n → xor_loop fuel xs ys n ≡ none
unfolding xor_loop
xor_loop-behind zero xs ys n f short = absurd (omega arith)
xor_loop-behind (suc fuel) xs ys n f short = elim (Bool-cases (leb 8 n)) [
  | inl more ↦
      let enough : 8 ≤ n = ground arith in
      let rest = xor_loop-behind fuel (drop 8 xs) (drop 8 ys) (n - 8) (omega arith) in
      rw more (round-behind xs ys n _ enough short rest)
  | inr last ↦ rw last (xor_from-behind n 0 xs ys (omega arith) (omega arith) (ground arith))
]

-- Whatever the buffers and the length, the unrolled loop and the one behind it read behind a buffer
-- exactly where it has fewer bytes than the length, and write the byte-wise exclusive or of the first
-- bytes else.
pub xor_checked_lem :
    (xs ys : List ℕ) (n : ℕ)
    → xor_checked xs ys n ≡ (
        if leb n (length xs) && leb n (length ys)
        then some (xor_bytes (take n xs) (take n ys))
        else none)
unfolding xor_checked
xor_checked_lem xs ys n = elim (Bool-cases (leb n (length xs) && leb n (length ys))) [
  | inl within ↦ rw within (xor_checked-xor_bytes xs ys n (ground arith) (ground arith))
  | inr behind ↦ rw behind (xor_loop-behind (suc n) xs ys n (omega arith) (ground arith))
]
