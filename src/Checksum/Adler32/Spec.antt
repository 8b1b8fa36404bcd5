-- ===== src/Checksum/Adler32/Spec.antt =====
-- The delayed reduction of Adler32::hash is right: no 32-bit sum overflows between two reductions, and
-- the checksum is that of the definition.
use php_botan.Base.{
  ℕ, zero, suc, ◌+◌, ◌*◌, ◌/◌, ◌%◌, ◌^◌, ◌<◌, ◌≤◌, ◌≡◌, refl, sym, ap, ap₂, ◌∙◌, arith, List, [],
  ◌∷◌, ◌++◌, All, All-append, All-take, All-drop, take, drop, length, length-take, length-drop,
  take-append-drop,
}
use php_botan.Base.Words.{IsByte}
use php_botan.Checksum.Adler32.{
  Adler32, add_byte, add_bytes, add_unrolled, hash_end, hash, process_amount, add_rounds, add_data,
  adler_spec,
}
use native.Mathlib.Nat.{mul-le-mul, le_refl}

abbrev pub Sums : Type 0
Sums = ℕ × ℕ

-- The two sums without wrap-around.
exact : Sums → List ℕ → Sums
exact s [] = s
exact (a, b) (c ∷ cs) = exact (a + c, b + (a + c)) cs

le-exact : (a b : ℕ) (cs : List ℕ) → (a ≤ (exact (a, b) cs).0) × (b ≤ (exact (a, b) cs).1)
unfolding exact
le-exact a b [] = omega arith
le-exact a b (c ∷ cs) = omega (arith, le-exact (a + c) (b + (a + c)) cs)

-- The sums over `n` bytes, by the size of the first two.
exact_bounds :
    (n a b : ℕ) (cs : List ℕ)
    → length cs ≡ n
    → All IsByte cs
    → ((exact (a, b) cs).0 ≤ a + 255 * n)
      × (2 * (exact (a, b) cs).1 ≤ 2 * b + 2 * (n * a) + 255 * (n * (n + 1)))
unfolding exact
exact_bounds n a b [] e h = omega arith
exact_bounds zero a b (c ∷ cs) e h = absurd (omega arith)
exact_bounds (suc n) a b (c ∷ cs) e (h, hs) = omega (
  arith,
  exact_bounds n (a + c) (b + (a + c)) cs (omega arith) hs,
  mul-le-mul (le_refl n) (le_byte c h),
)
  where
    le_byte : (c : ℕ) → c < 256 → c ≤ 255
    le_byte c h = omega arith

-- Where the last sums fit 32 bits, none before them wrapped.
add_bytes-exact :
    (a b : ℕ) (cs : List ℕ)
    → (exact (a, b) cs).0 < 2 ^ 32
    → (exact (a, b) cs).1 < 2 ^ 32
    → add_bytes (a, b) cs ≡ exact (a, b) cs
unfolding exact add_bytes
add_bytes-exact a b [] p q = refl
add_bytes-exact a b (c ∷ cs) p q =
    ap₂ (λ (x y : ℕ). add_bytes (x, y) cs) small1 small2
    ∙ add_bytes-exact (a + c) (b + (a + c)) cs p q
  where
    small1 : (a + c) % 2 ^ 32 ≡ a + c
    small1 = omega (arith, le-exact (a + c) (b + (a + c)) cs)

    small2 : (b + (a + c) % 2 ^ 32) % 2 ^ 32 ≡ b + (a + c)
    small2 = omega (arith, le-exact (a + c) (b + (a + c)) cs)

add_bytes-append :
    (s : Sums) (xs ys : List ℕ) → add_bytes s (xs ++ ys) ≡ add_bytes (add_bytes s xs) ys
unfolding add_bytes
add_bytes-append s [] ys = refl
add_bytes-append s (x ∷ xs) ys = add_bytes-append (add_byte s x) xs ys

add_unrolled-add_bytes :
    (rounds : ℕ) (s : Sums) (cs : List ℕ) → add_unrolled rounds s cs ≡ add_bytes s cs
unfolding add_unrolled
add_unrolled-add_bytes zero s cs = refl
add_unrolled-add_bytes (suc rounds) s cs =
    add_unrolled-add_bytes rounds (add_bytes s (take 16 cs)) (drop 16 cs)
    ∙ sym (add_bytes-append s (take 16 cs) (drop 16 cs))
    ∙ ap (add_bytes s) (take-append-drop 16 cs)

-- Reducing at the end is reducing at every byte.
exact-adler_spec :
    (a b : ℕ) (cs : List ℕ)
    → ◌≡◌ {A = Sums}
        ((exact (a, b) cs).0 % 65521, (exact (a, b) cs).1 % 65521)
        (adler_spec (a % 65521, b % 65521) cs)
unfolding exact adler_spec
exact-adler_spec a b [] = refl
exact-adler_spec a b (c ∷ cs) =
    exact-adler_spec (a + c) (b + (a + c)) cs
    ∙ ap₂ (λ (x y : ℕ). adler_spec (x, y) cs) reduce1 reduce2
  where
    reduce1 : (a + c) % 65521 ≡ (a % 65521 + c) % 65521
    reduce1 = omega arith

    reduce2 : (b + (a + c)) % 65521 ≡ (b % 65521 + (a % 65521 + c)) % 65521
    reduce2 = omega arith

adler_spec-append :
    (s : Sums) (xs ys : List ℕ) → adler_spec s (xs ++ ys) ≡ adler_spec (adler_spec s xs) ys
unfolding adler_spec
adler_spec-append s [] ys = refl
adler_spec-append (a, b) (x ∷ xs) ys =
    adler_spec-append ((a + x) % 65521, (b + (a + x)) % 65521) xs ys

-- The members between two calls are reduced.
abbrev pub IsReduced : Adler32 → Type 0
IsReduced a = (a.s1 < 65521) × (a.s2 < 65521)

abbrev pub sums : Adler32 → Sums
sums a = (a.s1, a.s2)

-- 5552 bytes do not overflow the sums that started reduced.
fits_word :
    (a b : ℕ) (cs : List ℕ)
    → a < 65521
    → b < 65521
    → All IsByte cs
    → length cs ≤ 5552
    → ((exact (a, b) cs).0 < 2 ^ 32) × ((exact (a, b) cs).1 < 2 ^ 32)
fits_word a b cs ha hb h le =
    let bounds = exact_bounds (length cs) a b cs refl h in
    let linear : length cs * a ≤ 5552 * 65520 = mul-le-mul le (le_pred a ha) in
    let square : length cs * (length cs + 1) ≤ 5552 * 5553 =
      mul-le-mul le (le_next (length cs) le) in
    (omega (arith, bounds.0), omega (arith, bounds.1, linear, square))
  where
    le_pred : (a : ℕ) → a < 65521 → a ≤ 65520
    le_pred a h = omega arith

    le_next : (n : ℕ) → n ≤ 5552 → n + 1 ≤ 5553
    le_next n h = omega arith

hash-adler_spec :
    (a : Adler32) (cs : List ℕ)
    → IsReduced a
    → All IsByte cs
    → length cs ≤ 5552
    → (sums (hash a cs) ≡ adler_spec (sums a) cs) × IsReduced (hash a cs)
unfolding hash hash_end
hash-adler_spec a cs (ha, hb) h le = (
  ap (λ (s : Sums). (s.0 % 65521, s.1 % 65521)) no_wrap
      ∙ exact-adler_spec a.s1 a.s2 cs
      ∙ ap₂ (λ (x y : ℕ). adler_spec (x, y) cs) reduced1 reduced2,
  omega arith,
)
  where
    fits : ((exact (a.s1, a.s2) cs).0 < 2 ^ 32) × ((exact (a.s1, a.s2) cs).1 < 2 ^ 32)
    fits = fits_word a.s1 a.s2 cs ha hb h le

    no_wrap : add_unrolled (length cs / 16) (a.s1, a.s2) cs ≡ exact (a.s1, a.s2) cs
    no_wrap =
        add_unrolled-add_bytes (length cs / 16) (a.s1, a.s2) cs
        ∙ add_bytes-exact a.s1 a.s2 cs fits.0 fits.1

    reduced1 : a.s1 % 65521 ≡ a.s1
    reduced1 = omega arith

    reduced2 : a.s2 % 65521 ≡ a.s2
    reduced2 = omega arith

add_rounds-adler_spec :
    (rounds : ℕ) (a : Adler32) (cs : List ℕ)
    → IsReduced a
    → All IsByte cs
    → length cs < suc rounds * process_amount
    → rounds * process_amount ≤ length cs
    → (sums (add_rounds rounds a cs) ≡ adler_spec (sums a) cs) × IsReduced (add_rounds rounds a cs)
unfolding add_rounds
add_rounds-adler_spec zero a cs r h lt le = hash-adler_spec a cs r h (omega arith)
add_rounds-adler_spec (suc rounds) a cs r h lt le =
    let head = take process_amount cs in
    let last = drop process_amount cs in
    let first =
      hash-adler_spec a head r (All-take IsByte process_amount cs h)
        (omega (arith, length-take process_amount cs)) in
    let rest =
      add_rounds-adler_spec rounds (hash a head) last first.1 (All-drop IsByte process_amount cs h)
        (omega (arith, length-drop process_amount cs))
        (omega (arith, length-drop process_amount cs)) in
    (
      rest.0
          ∙ ap (λ s. adler_spec s last) first.0
          ∙ sym (adler_spec-append (sums a) head last)
          ∙ ap (adler_spec (sums a)) (take-append-drop process_amount cs),
      rest.1,
    )

-- From reduced members, over any number of bytes, the code computes the two sums of the definition,
-- and leaves reduced members.
pub add_data-adler_spec :
    (a : Adler32) (input : List ℕ)
    → IsReduced a
    → All IsByte input
    → (sums (add_data a input) ≡ adler_spec (sums a) input) × IsReduced (add_data a input)
unfolding add_data
add_data-adler_spec a input r h =
    add_rounds-adler_spec (length input / process_amount) a input r h (omega arith) (omega arith)

-- Two calls are one call on the joined input.
pub add_data-append :
    (a : Adler32) (xs ys : List ℕ)
    → IsReduced a
    → All IsByte xs
    → All IsByte ys
    → add_data (add_data a xs) ys ≡ add_data a (xs ++ ys)
add_data-append a xs ys r hx hy =
    ap (λ (s : Sums). record { s1 = s.0; s2 = s.1 })
      (second.0
        ∙ ap (λ s. adler_spec s ys) first.0
        ∙ sym (adler_spec-append (sums a) xs ys)
        ∙ sym (add_data-adler_spec a (xs ++ ys) r (All-append IsByte xs ys hx hy)).0)
  where
    first : (sums (add_data a xs) ≡ adler_spec (sums a) xs) × IsReduced (add_data a xs)
    first = add_data-adler_spec a xs r hx

    second :
        (sums (add_data (add_data a xs) ys) ≡ adler_spec (sums (add_data a xs)) ys)
        × IsReduced (add_data (add_data a xs) ys)
    second = add_data-adler_spec (add_data a xs) ys first.1 hy
