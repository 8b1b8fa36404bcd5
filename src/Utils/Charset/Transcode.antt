-- ===== src/Utils/Charset/Transcode.antt =====
-- The conversions between character sets.
use php_botan.Base.{
  ℕ, ◌+◌, ◌/◌, ◌%◌, ◌^◌, ◌<◌, ◌≤◌, ◌≡◌, ◌↔◌, refl, arith, List, [], ◌∷◌, All, true, false,
  Bool-cases, inl, inr, bit_and, bit_or, leb, ◌==◌,
}
use php_botan.Base.Tables.{all_from, eq_by_table}
use php_botan.Base.Bits.{bit_and_mask, bit_or_fields}
use php_botan.Base.Words.{IsByte}
use php_botan.Base.Exceptn.{Exception, Result, ok, throw, ◌>>=◌}
use php_botan.Utils.Charset.{
  iso_char, prepend, is_odd, ucs2_to_latin1, utf8_to_latin1, latin1_to_utf8, transcode,
  utf8_charset, latin1_charset,
}

lead_byte : (c : ℕ) → c < 256 → bit_or 0xC0 (c / 2 ^ 6) ≡ 192 + c / 64
unfolding all_from
lead_byte c h = eq_by_table 256 (λ x. bit_or 0xC0 (x / 2 ^ 6)) (λ x. 192 + x / 64) c refl h

iso_char-parts : (c : ℕ) → c < 256 → iso_char (192 + c / 64) (bit_or 0x80 (bit_and c 0x3F)) ≡ c
unfolding all_from iso_char
iso_char-parts c h =
    eq_by_table 256 (λ x. iso_char (192 + x / 64) (bit_or 0x80 (bit_and x 0x3F))) (λ x. x) c refl h

ascii_step :
    (c : ℕ) (t s : List ℕ)
    → c ≤ 0x7F
    → utf8_to_latin1 t ≡ ok s
    → utf8_to_latin1 (c ∷ t) ≡ ok (c ∷ s)
unfolding utf8_to_latin1
ascii_step c [] s h e = ground arith
ascii_step c (c2 ∷ t) s h e = let one = leb_true c h in rw (one, e)
  where
    leb_true : (c : ℕ) → c ≤ 0x7F → leb c 0x7F ≡ true
    leb_true c h = ground arith

pair_step :
    (c : ℕ) (t s : List ℕ)
    → c < 256
    → 0x7F < c
    → utf8_to_latin1 t ≡ ok s
    → utf8_to_latin1 (bit_or 0xC0 (c / 2 ^ 6) ∷ bit_or 0x80 (bit_and c 0x3F) ∷ t) ≡ ok (c ∷ s)
unfolding utf8_to_latin1
pair_step c t s h g e =
    rw (lead_byte c h, not_ascii, lead_low, lead_high, iso_char-parts c h, big, e)
  where
    not_ascii : leb (192 + c / 64) 0x7F ≡ false
    not_ascii = ground arith

    lead_low : leb 0xC0 (192 + c / 64) ≡ true
    lead_low = ground arith

    lead_high : leb (192 + c / 64) 0xC7 ≡ true
    lead_high = ground arith

    big : leb c 0x7F ≡ false
    big = ground arith

-- Every Latin-1 string comes back from its UTF-8 form.
pub utf8_to_latin1-latin1_to_utf8 :
    (s : List ℕ) → All IsByte s → utf8_to_latin1 (latin1_to_utf8 s) ≡ ok s
unfolding latin1_to_utf8
utf8_to_latin1-latin1_to_utf8 [] h = unfold utf8_to_latin1 in refl
utf8_to_latin1-latin1_to_utf8 (c ∷ s) (h, hs) = elim (Bool-cases (leb c 0x7F)) [
  | inl ascii ↦
      rw ascii
        (ascii_step c (latin1_to_utf8 s) s (ground arith) (utf8_to_latin1-latin1_to_utf8 s hs))
  | inr wide ↦
      rw wide
        (pair_step c (latin1_to_utf8 s) s h (ground arith) (utf8_to_latin1-latin1_to_utf8 s hs))
]

-- Transcoding to UTF-8 and back, by the public entry point.
pub transcode-transcode :
    (s : List ℕ)
    → All IsByte s
    → (transcode s utf8_charset latin1_charset >>= λ u. transcode u latin1_charset utf8_charset)
      ≡ ok s
unfolding transcode
transcode-transcode s h = utf8_to_latin1-latin1_to_utf8 s h

iso_char_wraps : (c1 c2 : ℕ) → 0xC0 ≤ c1 → c1 < 0xC4 → iso_char (c1 + 4) c2 ≡ iso_char c1 c2
unfolding iso_char
iso_char_wraps c1 c2 h g =
    rw
      (
        bit_and_mask 3 (c1 + 4),
        bit_and_mask 3 c1,
        bit_and_mask 6 c2,
        bit_or_fields 6 ((c1 + 4) % 2 ^ 3) (c2 % 2 ^ 6) (omega arith),
        bit_or_fields 6 (c1 % 2 ^ 3) (c2 % 2 ^ 6) (omega arith),
      )
      (omega arith)

-- The decoder does not tell the lead bytes 0xC4 to 0xC7 from 0xC0 to 0xC3: a two-byte sequence for a
-- character above U+00FF is decoded like the one with the lead byte 4 less.
pub utf8_to_latin1_wraps :
    (c1 c2 : ℕ) (rest : List ℕ)
    → 0xC0 ≤ c1
    → c1 < 0xC4
    → utf8_to_latin1 ((c1 + 4) ∷ c2 ∷ rest) ≡ utf8_to_latin1 (c1 ∷ c2 ∷ rest)
unfolding utf8_to_latin1
utf8_to_latin1_wraps c1 c2 rest h g = rw (iso_char_wraps c1 c2 h g) (ground (arith))

-- The two-byte form of a Latin-1 string.
abbrev pub widen : List ℕ → List ℕ
widen [] = []
widen (c ∷ s) = 0 ∷ c ∷ widen s

ucs2_loop-widen : (s : List ℕ) → ucs2_to_latin1 (widen s) ≡ ok s
unfolding ucs2_to_latin1
ucs2_loop-widen [] = refl
ucs2_loop-widen (c ∷ s) = ground (arith, ucs2_loop-widen s)

ucs2_step :
    (a b : ℕ) (u s : List ℕ)
    → ucs2_to_latin1 (a ∷ b ∷ u) ≡ ok s
    → (a ≡ 0) × (prepend b (ucs2_to_latin1 u) ≡ ok s)
unfolding ucs2_to_latin1
ucs2_step a b u s h = elim (Bool-cases (is_odd u)) [
  | inl odd ↦ absurd (throw-ne-ok (rw odd at h))
  | inr even ↦ elim (Bool-cases (a == 0)) [
    | inl high ↦ (ground arith, rw even (rw (even, high) at h))
    | inr low ↦ absurd (throw-ne-ok (rw (even, low) at h))
  ]
]
  where
    throw-ne-ok : {e : Exception} {t : List ℕ} → throw e ≡ ok t → ⊥
    throw-ne-ok h = cc

prepend-eq-ok :
    (c : ℕ) (r : Result (List ℕ)) (s : List ℕ)
    → prepend c r ≡ ok s
    → (t : List ℕ) × (r ≡ ok t) × (s ≡ c ∷ t)
prepend-eq-ok c (ok t) s h = (t, refl, ground arith)
prepend-eq-ok c (throw e) s h = cc

ucs2_to_latin1-accepts : (u s : List ℕ) → ucs2_to_latin1 u ≡ ok s → u ≡ widen s
ucs2_to_latin1-accepts [] s h = unfold ucs2_to_latin1 in (ground arith)
ucs2_to_latin1-accepts (a ∷ []) s h = unfold ucs2_to_latin1 in cc
ucs2_to_latin1-accepts (a ∷ b ∷ u) s h =
    let (low, more) = ucs2_step a b u s h in
    let (t, e, parts) = prepend-eq-ok b (ucs2_to_latin1 u) s more in
    rw (low, parts, ucs2_to_latin1-accepts u t e)

-- UCS-2 is accepted exactly where it is the two-byte form of a Latin-1 string, and gives that string.
pub ucs2_to_latin1_lem : (u s : List ℕ) → (ucs2_to_latin1 u ≡ ok s) ↔ (u ≡ widen s)
ucs2_to_latin1_lem u s = (ucs2_to_latin1-accepts u s, λ e. rw e (ucs2_loop-widen s))
