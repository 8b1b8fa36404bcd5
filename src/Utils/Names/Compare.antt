-- ===== src/Utils/Names/Compare.antt =====
-- The comparison of X.500 names.
use php_botan.Base.{
  ℕ, zero, suc, ◌≤◌, ◌≡◌, refl, arith, List, [], ◌∷◌, true, false, Bool-cases, inl, inr, some, none,
  length, ◌&&◌, ◌==◌, if◌then◌else◌,
}
use php_botan.Utils.Charset.{is_space, caseless_cmp}
use php_botan.Utils.Charset.Digits.{is_space_blank}
use php_botan.Utils.Names.{is_empty, skip_spaces, compare_heads, names_loop, x500_name_cmp}

length-skip_spaces : (s : List ℕ) → length (skip_spaces s) ≤ length s
unfolding skip_spaces
length-skip_spaces [] = omega arith
length-skip_spaces (c ∷ s) = elim (Bool-cases (is_space c)) [
  | inl space ↦ rw space (omega (arith, length-skip_spaces s))
  | inr other ↦ rw other (omega arith)
]

test_self : (c : ℕ) → (c == c) ≡ true
test_self c = ground arith

module _ (tolower : ℕ → ℕ) where
  caseless_cmp_self : (c : ℕ) → caseless_cmp tolower c c ≡ true
  unfolding caseless_cmp
  caseless_cmp_self c = test_self (tolower c)

  after_spaces :
      (fuel : ℕ)
      → ((p : List ℕ) → length p ≤ fuel → names_loop tolower fuel p p ≡ some true)
      → (q : List ℕ) → length q ≤ fuel
      → (if is_empty q && is_empty q
          then some true
          else compare_heads tolower (names_loop tolower fuel) q q)
        ≡ some true
  unfolding compare_heads
  after_spaces fuel self [] g = refl
  after_spaces fuel self (d ∷ q) g = rw (caseless_cmp_self d) (self q (omega arith))

  names_loop_self :
      (fuel : ℕ) (p : List ℕ) → length p ≤ fuel → names_loop tolower fuel p p ≡ some true
  unfolding names_loop
  names_loop_self zero [] h = refl
  names_loop_self zero (c ∷ p) h = absurd (omega arith)
  names_loop_self (suc fuel) [] h = refl
  names_loop_self (suc fuel) (c ∷ p) h = elim (Bool-cases (is_space c)) [
    | inr other ↦ rw (other, caseless_cmp_self c) (names_loop_self fuel p (omega arith))
    | inl space ↦ rw space (
        after_spaces fuel (names_loop_self fuel) (skip_spaces p)
          (omega (arith, length-skip_spaces p)))
  ]

  -- Whatever the locale, every name is equal to itself, and its comparison with itself never reads at
  -- the end of a name.
  pub x500_name_cmp_self : (name : List ℕ) → x500_name_cmp tolower name name ≡ some true
  unfolding x500_name_cmp
  x500_name_cmp_self name =
      names_loop_self (length name) (skip_spaces name) (length-skip_spaces name)

  -- Whatever the locale, a name of one character that is not white space and a blank, against the same
  -- with another word after it: the comparison reads at the end of the first name.
  pub x500_name_cmp_overrun :
      (c d : ℕ) (rest : List ℕ)
      → is_space c ≡ false
      → is_space d ≡ false
      → x500_name_cmp tolower (c ∷ b' ' ∷ []) (c ∷ b' ' ∷ d ∷ rest) ≡ none
  unfolding x500_name_cmp
  x500_name_cmp_overrun c d rest h g = rw (h, caseless_cmp_self c, is_space_blank, g) (rw h refl)
