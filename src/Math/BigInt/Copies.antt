-- ===== src/Math/BigInt/Copies.antt =====
-- math/bigint/bigint.cpp: what the copy constructor keeps.
use php_botan.Base.{
  ℕ, ◌≤◌, ◌≡◌, refl, sym, ap, ◌∙◌, arith, false, Bool-cases, inl, inr, ◌==◌, ==_iff, take,
  replicate,
}
use mathlib.Core.Path.{subst}
use php_botan.Math.Value.{AreWords, value, value-zeros, zeros-AreWords}
use php_botan.Math.Multiply.Sizes.{by_if}
use php_botan.Math.Multiply.{stored}
use php_botan.Math.Multiply.Exact.{stored_lem}
use php_botan.Math.BigInt.{BigInt, Sign, positive, copy, set_sign, significant, sig_words, round_up}
use php_botan.Math.BigInt.Words.{magnitude, significant_lem, sig_words-Matter, set_sign_lem}
use php_botan.Math.BigInt.Sums.{IsBigInt, made}

pub set_sign-IsBigInt : (s : Sign) (b : BigInt) → AreWords b.reg → IsBigInt (set_sign s b)
set_sign-IsBigInt s b h =
    let (same, (sign, some)) = set_sign_lem s b in
    (subst AreWords (sym same) h, λ e. sign (sym (ap value same) ∙ e))

pub register_holds : (n : ℕ) → n ≤ round_up n 8
unfolding round_up
register_holds n = ground arith

-- A number without words that matter is zero.
pub no_words : (b : BigInt) → sig_words b ≡ 0 → magnitude b ≡ 0
unfolding value
no_words b e = sym (sig_words-Matter b).1 ∙ ap (λ n. value (take n b.reg)) e

positive_magnitude : (n : ℕ) → (n == 0) ≡ false → 1 ≤ n
positive_magnitude n h = ground arith

-- For an integer that holds words and has no sign for zero, the copy has the magnitude and the
-- sign, and holds words.
pub copy_lem :
    (b : BigInt)
    → IsBigInt b
    → (magnitude (copy b) ≡ magnitude b)
      × AreWords (copy b).reg
      × ((copy b).signedness ≡ b.signedness)
unfolding copy
copy_lem b (h, positive_zero) =
    let (words, same, count) = significant_lem b h in
    let k = round_up (sig_words b) 8 in
    let (all, all_words, size) =
      stored_lem k (value (significant b)) (significant b) refl words
        (omega (arith, count, register_holds (sig_words b))) in
    let kept = made positive (stored (replicate k 0) (significant b)) in
    let (reg, (zero_sign, sign)) = set_sign_lem b.signedness kept in
    let kept_sign : (set_sign b.signedness kept).signedness ≡ b.signedness =
      elim (Bool-cases (magnitude b == 0)) [
        | inl none ↦
            let zero_here = (==_iff (magnitude b) 0).0 none in
            zero_sign (all ∙ same ∙ zero_here) ∙ sym (positive_zero zero_here)
        | inr more ↦ sign (omega (arith, all, same, positive_magnitude (magnitude b) more))
      ] in
    let P = λ (r : BigInt).
      (magnitude r ≡ magnitude b) × AreWords r.reg × (r.signedness ≡ b.signedness) in
    by_if P (sig_words b == 0) _ _
      (λ none.
        let zero_here = no_words b ((==_iff (sig_words b) 0).0 none) in
        (value-zeros 2 ∙ sym zero_here, zeros-AreWords 2, sym (positive_zero zero_here)))
      (λ more. (ap value reg ∙ all ∙ same, subst AreWords (sym reg) all_words, kept_sign))
