-- ===== src/Math/Shift/Left.antt =====
-- A shift to the left multiplies by a power of two.
use php_botan.Base.{
  ℕ, zero, suc, ◌+◌, ◌-◌, ◌*◌, ◌/◌, ◌%◌, ◌^◌, ◌<◌, ◌≤◌, ◌≡◌, refl, sym, ap, ap₂, ◌∙◌, arith, List,
  [], ◌∷◌, ◌++◌, take, drop, take-append_exact, drop-append_exact, take-append_past,
  drop-append_past, length, length-append, length-replicate, replicate, All-append, Bool-cases, inl,
  inr, ◌==◌, if◌then◌else◌, false, true, ==_iff, bit_or,
}
use php_botan.Base.Bits.{bit_or_fields}
use mathlib.Core.Path.{subst}
use php_botan.Base.Tables.{eq_by_table}
use native.Mathlib.Nat.{
  mul-le-mul, one-le-pow, pow-le-pow_right, div-add-mod, mod-lt, div-lt_iff_lt-mul,
}
use php_botan.Base.Words.{IsU32, u32}
use php_botan.Math.Value.{
  AreWords, value, raised, raised-zero, nothing_left, value-lt, value-append, value-zeros,
  zeros-AreWords,
}
use php_botan.Math.Mp.Whole.{drop_zeros}
use php_botan.Math.Shift.{shl_loop, shl_bits, bigint_shl2}

-- The power of two that the carried bits make up with those that stay.
powers : (b : ℕ) → b < 32 → 2 ^ b * 2 ^ (32 - b) ≡ 2 ^ 32
unfolding php_botan.Base.Tables.all_from
powers b h = eq_by_table 32 (λ n. 2 ^ n * 2 ^ (32 - n)) (λ n. 2 ^ 32) b refl h

spread : (p q h l : ℕ) → (q * h + l) * p ≡ p * q * h + l * p
spread p q h l = grind arith

top_bits : (p l q : ℕ) → l < q → l * p + p ≤ p * q
top_bits p l q h =
    let one : l + 1 ≤ q = omega arith in
    let le = mul-le-mul (let e : p ≤ p = omega arith in e) one in
    let e : p * (l + 1) ≡ l * p + p = grind arith in omega (arith, le, e)

word_shl :
    (b w c : ℕ)
    → b < 32
    → IsU32 w
    → c < 2 ^ b
    → (bit_or (u32 (w * 2 ^ b)) c + 2 ^ 32 * (w / 2 ^ (32 - b)) ≡ 2 ^ b * w + c)
      × IsU32 (bit_or (u32 (w * 2 ^ b)) c)
      × (w / 2 ^ (32 - b) < 2 ^ b)
word_shl b w c h g k =
    let p = 2 ^ b in
    let q = 2 ^ (32 - b) in
    let full = powers b h in
    let positive : 0 < q = one-le-pow (32 - b) 2 (omega arith) in
    let split = div-add-mod w q in
    let low = mod-lt w positive in
    let below = top_bits p (w % q) q low in
    let times : w * p ≡ 2 ^ 32 * (w / q) + w % q * p =
      ap (λ v. v * p) (sym split)
      ∙ spread p q (w / q) (w % q)
      ∙ ap (λ v. v * (w / q) + w % q * p) full in
    let stays : u32 (w * p) ≡ w % q * p = omega (arith, times, below, full, k) in
    let high : w / q < p = (div-lt_iff_lt-mul positive).1 (omega (arith, full, g)) in
    rw (stays, bit_or_fields b (w % q) c k)
      (omega (arith, times), omega (arith, below, full, k), high)

shl_loop_lem :
    (b c : ℕ) (ws : List ℕ)
    → b < 32
    → c < 2 ^ b
    → AreWords ws
    → (over : ℕ) × (value (shl_loop b c ws) + raised (length ws) over ≡ 2 ^ b * value ws + c)
      × AreWords (shl_loop b c ws)
      × (length (shl_loop b c ws) ≡ length ws)
unfolding shl_loop value raised
shl_loop_lem b c [] h k g = (c, omega arith, tt, refl)
shl_loop_lem b c (w ∷ ws) h k (g, gs) =
    let (word, fits, carry) = word_shl b w c h g k in
    let (over, rest, words, size) = shl_loop_lem b (w / 2 ^ (32 - b)) ws h carry gs in
    (over, omega (arith, word, rest, scaled (2 ^ b) w (value ws)), (fits, words), ap suc size)
  where
    scaled : (p w v : ℕ) → p * (w + 2 ^ 32 * v) ≡ p * w + 2 ^ 32 * (p * v)
    scaled p w v = grind arith

-- The words of a number, the zero behind them included, take the shifted bits.
shifted_lem :
    (b : ℕ) (x : List ℕ)
    → b < 32
    → AreWords x
    → (value (shl_loop b 0 (x ++ 0 ∷ [])) ≡ 2 ^ b * value x)
      × AreWords (shl_loop b 0 (x ++ 0 ∷ []))
      × (length (shl_loop b 0 (x ++ 0 ∷ [])) ≡ length x + 1)
unfolding value raised
shifted_lem b x h g =
    let some = one-le-pow b 2 (omega arith) in
    let all = All-append IsU32 x (0 ∷ []) g (omega arith, tt) in
    let (over, sum, words, size) = shl_loop_lem b 0 (x ++ 0 ∷ []) h some all in
    let count = length-append x (0 ∷ []) in
    let same : value (x ++ 0 ∷ []) ≡ value x =
      omega (arith, value-append x (0 ∷ []), raised-zero (length x)) in
    let below : 2 ^ b * value x < raised (length x + 1) 1 =
      let bits : 2 ^ b ≤ 2 ^ 32 = pow-le-pow_right (omega arith) {j = 32} (omega arith) in
      let most : 2 ^ b * value x ≤ 2 ^ 32 * value x =
        mul-le-mul bits (let e : value x ≤ value x = omega arith in e) in
      let next : length x + 1 ≡ suc (length x) = omega arith in
      omega (arith, most, value-lt x g, ap (λ n. raised n 1) next) in
    (
      nothing_left (length x + 1) over (2 ^ b * value x) (value (shl_loop b 0 (x ++ 0 ∷ [])))
          (omega (arith, sum, ap (λ n. raised n over) count, ap (λ v. 2 ^ b * v) same)) below,
      words,
      omega (arith, size, count),
    )

take_zeros : (n k : ℕ) → n ≤ k → take n (replicate {A = ℕ} k 0) ≡ replicate n 0
take_zeros zero k h = refl
take_zeros (suc n) zero h = absurd (omega arith)
take_zeros (suc n) (suc k) h = ap (λ t. 0 ∷ t) (take_zeros n k (omega arith))

-- The words between zeros.
framed_lem :
    (n r : ℕ) (x : List ℕ)
    → AreWords x
    → (value (replicate n 0 ++ (x ++ replicate r 0)) ≡ raised n (value x))
      × AreWords (replicate n 0 ++ (x ++ replicate r 0))
      × (length (replicate n 0 ++ (x ++ replicate r 0)) ≡ n + length x + r)
framed_lem n r x h =
    let rest = x ++ replicate r 0 in
    let same : value rest ≡ value x = omega (
      arith,
      value-append x (replicate r 0),
      ap (raised (length x)) (value-zeros r),
      raised-zero (length x),
    ) in
    (
      value-append (replicate n 0) rest
          ∙ ap₂ (λ a m. a + raised m (value rest)) (value-zeros n) (length-replicate {A = ℕ} n 0)
          ∙ ap (λ v. 0 + raised n v) same
          ∙ omega arith,
      All-append IsU32 (replicate n 0) rest (zeros-AreWords n)
          (All-append IsU32 x (replicate r 0) h (zeros-AreWords r)),
      omega (
        arith,
        length-append (replicate n 0) rest,
        length-append x (replicate r 0),
        length-replicate {A = ℕ} n 0,
        length-replicate {A = ℕ} r 0,
      ),
    )

-- Where bits are shifted.
shl_bits_lem :
    (n b r : ℕ) (x : List ℕ)
    → (b == 0) ≡ false
    → shl_bits (replicate n 0 ++ (x ++ replicate (suc r) 0)) (length x) n b
      ≡ replicate n 0 ++ (shl_loop b 0 (x ++ 0 ∷ []) ++ replicate r 0)
unfolding shl_bits
shl_bits_lem n b r x e =
    let zeros : List ℕ = replicate n 0 in
    let rest = x ++ replicate (suc r) 0 in
    let size = length-replicate {A = ℕ} n 0 in
    let one : length x + 1 - length x ≡ 1 = omega arith in
    let past : n + length x + 1 - length zeros ≡ length x + 1 = omega (arith, size) in
    let low = take-append_exact zeros rest n (sym size) in
    let high = drop-append_exact zeros rest n (sym size) in
    let taken : take (length x + 1) rest ≡ x ++ 0 ∷ [] =
      take-append_past (length x + 1) x (replicate (suc r) 0) (omega arith)
      ∙ ap (λ m. x ++ take m (replicate (suc r) 0)) one in
    let left : drop (n + length x + 1) (zeros ++ rest) ≡ replicate r 0 =
      drop-append_past (n + length x + 1) zeros rest (omega (arith, size))
      ∙ ap (λ m. drop m rest) past
      ∙ drop-append_past (length x + 1) x (replicate (suc r) 0) (omega arith)
      ∙ ap (λ m. drop m (replicate {A = ℕ} (suc r) 0)) one in
    rw (e, low, high, taken, left) refl

abbrev Shifted : List ℕ → ℕ → ℕ → ℕ → List ℕ → Type 0
Shifted x n b k z = (value z ≡ raised n (2 ^ b * value x)) × AreWords z × (length z ≡ k)

-- Where none are.
words_only :
    (n b r k : ℕ) (x : List ℕ)
    → (b == 0) ≡ true
    → AreWords x
    → n + length x + r ≡ k
    → Shifted x n b k (shl_bits (replicate n 0 ++ (x ++ replicate r 0)) (length x) n b)
unfolding shl_bits
words_only n b r k x none hx size =
    let zero_bits = (==_iff b 0).0 none in
    let one : value x ≡ 2 ^ b * value x = omega (arith, ap (λ c. 2 ^ c * value x) zero_bits) in
    let (all, words, count) = framed_lem n r x hx in
    rw none (all ∙ ap (raised n) one, words, count ∙ size)

-- Into a cleared array with room, the number times the power of two is written.
pub bigint_shl2_lem :
    (x : List ℕ) (word_shift bit_shift k : ℕ)
    → AreWords x
    → bit_shift < 32
    → word_shift + length x + (if bit_shift == 0 then 0 else 1) ≤ k
    → (value (bigint_shl2 (replicate k 0) x word_shift bit_shift)
        ≡ raised word_shift (2 ^ bit_shift * value x))
      × AreWords (bigint_shl2 (replicate k 0) x word_shift bit_shift)
      × (length (bigint_shl2 (replicate k 0) x word_shift bit_shift) ≡ k)
unfolding bigint_shl2
bigint_shl2_lem x n b k hx hb room =
    let r = k - (n + length x) in
    let moved : bigint_shl2 (replicate k 0) x n b
        ≡ shl_bits (replicate n 0 ++ (x ++ replicate r 0)) (length x) n b =
      ap₂ (λ low rest. shl_bits (low ++ (x ++ rest)) (length x) n b) (take_zeros n k (omega arith))
        (drop_zeros (n + length x) k (omega arith)) in
    subst (Shifted x n b k) (sym moved) (elim (Bool-cases (b == 0)) [
      | inl none ↦ words_only n b r k x none hx (omega arith)
      | inr some ↦
          let next : r ≡ suc (r - 1) = ground arith in
          let (value, words, size) = shifted_lem b x hb hx in
          let (all, all_words, count) = framed_lem n (r - 1) (shl_loop b 0 (x ++ 0 ∷ [])) words in
          subst (Shifted x n b k)
            (sym (
              ap (λ m. shl_bits (replicate n 0 ++ (x ++ replicate m 0)) (length x) n b) next
              ∙ shl_bits_lem n b (r - 1) x some))
            (all ∙ ap (raised n) value, all_words, omega (arith, count, size, next))
    ])
