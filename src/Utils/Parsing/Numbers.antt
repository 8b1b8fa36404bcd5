-- ===== src/Utils/Parsing/Numbers.antt =====
-- Decimal numbers: what `to_u32bit` accepts, what `to_string` prints, and that they fit.
use php_botan.Base.{
  ℕ, zero, suc, ◌+◌, ◌-◌, ◌*◌, ◌/◌, ◌%◌, ◌^◌, ◌<◌, ◌≤◌, ◌≡◌, ◌↔◌, refl, ap, ◌∙◌, sym, arith, List,
  [], ◌∷◌, ◌++◌, append-nil, append_assoc, All, All-append, true, false, Bool-cases, inl, inr, ltb,
  ◌==◌, if◌then◌else◌, length, replicate, length-append, length-replicate,
}
use php_botan.Base.Words.{IsU32}
use php_botan.Base.Exceptn.{ok, ◌>>=◌, >>=-eq-ok, guard-eq-ok, decoding_error}
use native.Mathlib.Nat.{pow-suc}
use php_botan.Utils.Charset.{char2digit}
use php_botan.Utils.Charset.Digits.{char2digit_lem, digit2char_lem}
use php_botan.Utils.Parsing.{overflows, to_u32_loop, to_u32bit, digits_loop, to_string}

abbrev pub IsDigit : ℕ → Type 0
IsDigit c = (b'0' ≤ c) × (c < b'0' + 10)

-- The number that a text of digits stands for, behind digits that stand for `n`.
unfoldable pub value : ℕ → List ℕ → ℕ
value n [] = n
value n (c ∷ s) = value (n * 10 + (c - b'0')) s

le-value : (n : ℕ) (s : List ℕ) → n ≤ value n s
unfolding value
le-value n [] = omega arith
le-value n (c ∷ s) = omega (arith, le-value (n * 10 + (c - b'0')) s)

pub value-append : (n : ℕ) (s t : List ℕ) → value n (s ++ t) ≡ value (value n s) t
unfolding value
value-append n [] t = refl
value-append n (c ∷ s) t = value-append (n * 10 + (c - b'0')) s t

value-zeros : (k : ℕ) (s : List ℕ) → value 0 (replicate k b'0' ++ s) ≡ value 0 s
unfolding value
value-zeros zero s = refl
value-zeros (suc k) s = value-zeros k s

char2digit-IsDigit : (c d : ℕ) → char2digit c ≡ ok d → (IsDigit c) × (d ≡ c - b'0') × (d < 10)
char2digit-IsDigit c d h = omega (arith, (char2digit_lem c d).0 h)

IsDigit-digit : (c : ℕ) → IsDigit c → char2digit c ≡ ok (c - b'0')
IsDigit-digit c h = (char2digit_lem c (c - b'0')).1 (omega arith)

-- The guard throws exactly when the next value needs more than 32 bits.
overflows_lem : (n d : ℕ) → IsU32 n → d < 10 → (overflows n d ≡ false) ↔ (n * 10 + d < 2 ^ 32)
unfolding overflows
overflows_lem n d h g = ground arith

to_u32_loop-value :
    (n : ℕ) (s : List ℕ) → All IsDigit s → value n s < 2 ^ 32 → to_u32_loop n s ≡ ok (value n s)
unfolding to_u32_loop value
to_u32_loop-value n [] h lt = refl
to_u32_loop-value n (c ∷ s) (h, hs) lt =
    rw (IsDigit-digit c h, fits, small) (to_u32_loop-value (n * 10 + (c - b'0')) s hs lt)
  where
    next : n * 10 + (c - b'0') < 2 ^ 32
    next = omega (arith, le-value (n * 10 + (c - b'0')) s)

    fits : overflows n (c - b'0') ≡ false
    fits = (overflows_lem n (c - b'0') (omega (arith, next)) (omega arith)).1 next

    small : (n * 10 % 2 ^ 32 + (c - b'0')) % 2 ^ 32 ≡ n * 10 + (c - b'0')
    small = omega (arith, next)

to_u32_loop-accepts :
    (n : ℕ) (s : List ℕ) (m : ℕ)
    → IsU32 n
    → to_u32_loop n s ≡ ok m
    → (All IsDigit s) × (value n s ≡ m) × IsU32 m
unfolding to_u32_loop value
to_u32_loop-accepts n [] m b h = ground arith
to_u32_loop-accepts n (c ∷ s) m b h =
    let (d, digit, more) = >>=-eq-ok _ (char2digit c) h in
    let (fits, rest) = guard-eq-ok (overflows n d) decoding_error _ more in
    let (is_digit, d_eq, d_lt) = char2digit-IsDigit c d digit in
    let lt : n * 10 + d < 2 ^ 32 = (overflows_lem n d b d_lt).0 fits in
    let next : (n * 10 % 2 ^ 32 + d) % 2 ^ 32 ≡ n * 10 + (c - b'0') = omega (arith, d_eq, lt) in
    let (digits, v, m_lt) =
      to_u32_loop-accepts (n * 10 + (c - b'0')) s m (omega (arith, d_eq, lt)) (rw next at rest) in
    ((is_digit, digits), v, m_lt)

-- `to_u32bit` returns `m` exactly on a text of digits for `m`, below 2 ^ 32; on every other text it
-- throws. The empty text stands for 0.
pub to_u32bit_lem :
    (s : List ℕ) (m : ℕ) → (to_u32bit s ≡ ok m) ↔ ((All IsDigit s) × (value 0 s ≡ m) × IsU32 m)
unfolding to_u32bit
to_u32bit_lem s m = (
  λ h. to_u32_loop-accepts 0 s m (omega arith) h,
  λ p. to_u32_loop-value 0 s p.0 (omega (arith, p.1, p.2)) ∙ ap ok p.1,
)

-- What the printing loop puts before the digits that it has.
record IsPrinted (n : ℕ) (s : List ℕ) : Type 0 where
  digits : All IsDigit s
  number : value 0 s ≡ n
  printed : 0 < n → 0 < length s

digits_loop_step :
    (fuel n : ℕ) (lenstr : List ℕ)
    → ltb 0 n ≡ true
    → digits_loop (suc fuel) n lenstr ≡ digits_loop fuel (n / 10) ((n % 10 + b'0') ∷ lenstr)
unfolding digits_loop
digits_loop_step fuel n lenstr go = rw (go, digits_loop, digit2char_lem (n % 10) (omega arith)) refl

digits_loop-IsPrinted :
    (fuel n : ℕ) (lenstr : List ℕ)
    → n < 10 ^ fuel
    → (s : List ℕ) × (digits_loop fuel n lenstr ≡ ok (s ++ lenstr)) × IsPrinted n s
unfolding digits_loop value
digits_loop-IsPrinted zero n lenstr h =
    ([], refl, record { digits = tt; number = omega arith; printed = λ p. absurd (omega arith) })
digits_loop-IsPrinted (suc fuel) n lenstr h = elim (Bool-cases (ltb 0 n)) [
  | inr stop ↦ (
    [],
    rw (stop, digits_loop) refl,
    record { digits = tt; number = ground arith; printed = λ p. absurd (ground arith) },
  )
  | inl go ↦
      let c : ℕ = n % 10 + b'0' in
      let (s, e, p) =
        digits_loop-IsPrinted fuel (n / 10) (c ∷ lenstr) (omega (arith, pow-suc 10 fuel)) in
      (
        s ++ c ∷ [],
        digits_loop_step fuel n lenstr go ∙ e ∙ ap ok (sym (append_assoc s (c ∷ []) lenstr)),
        record {
          digits = All-append IsDigit s (c ∷ []) p.digits (omega arith);
          number = value-append 0 s (c ∷ []) ∙ omega (arith, p.number);
          printed = λ q. omega (arith, length-append s (c ∷ []));
        },
      )
]

unpadded :
    (n : ℕ)
    → n < 2 ^ 64
    → (s : List ℕ) × ((if n == 0 then ok (b'0' ∷ []) else digits_loop 20 n []) ≡ ok s)
      × All IsDigit s
      × (value 0 s ≡ n)
      × (0 < length s)
unfolding value
unpadded n h = elim (Bool-cases (n == 0)) [
  | inl stop ↦ (b'0' ∷ [], rw stop, omega arith, ground arith, omega arith)
  | inr go ↦
      let (s, e, p) = digits_loop-IsPrinted 20 n [] (omega arith) in
      (s, rw go (e ∙ ap ok (append-nil s)), p.digits, p.number, p.printed (ground arith))
]

zeros-IsDigit : (k : ℕ) → All IsDigit (replicate k b'0')
zeros-IsDigit zero = tt
zeros-IsDigit (suc k) = (omega arith, zeros-IsDigit k)

-- For every 64-bit number `to_string` returns: digits for the number, at least one and at least
-- `min_len` of them.
pub to_string_lem :
    (n min_len : ℕ)
    → n < 2 ^ 64
    → (s : List ℕ) × (to_string n min_len ≡ ok s)
      × All IsDigit s
      × (value 0 s ≡ n)
      × (0 < length s)
      × (min_len ≤ length s)
unfolding to_string
to_string_lem n min_len h =
    let (s, e, d, v, pos) = unpadded n h in
    let zeros : List ℕ = replicate (min_len - length s) b'0' in
    let len : length (zeros ++ s) ≡ min_len - length s + length s =
      omega (arith, length-append zeros s, length-replicate {A = ℕ} (min_len - length s) b'0') in
    (
      zeros ++ s,
      rw e,
      All-append IsDigit zeros s (zeros-IsDigit (min_len - length s)) d,
      value-zeros (min_len - length s) s ∙ v,
      omega (arith, len),
      omega (arith, len),
    )

-- Reading back what was printed gives every 32-bit number, whatever the least length.
pub to_u32bit-to_string : (n min_len : ℕ) → IsU32 n → (to_string n min_len >>= to_u32bit) ≡ ok n
to_u32bit-to_string n min_len h =
    let (s, e, d, v, pos, len) = to_string_lem n min_len (omega arith) in
    rw e ((to_u32bit_lem s n).1 (d, v, h))
