-- ===== src/Base/Loops.antt =====
-- `for(u32bit j = i; j != i + n; ++j) s = body(j, s);`, and loops that undo one another.
use php_botan.Base.{ℕ, zero, suc, ◌+◌, ◌-◌, ◌<◌, ◌≡◌, refl, ap, ◌∙◌, arith}

module _ {ℓ} {S : Type ℓ} where
  unfoldable pub for_range : ℕ → ℕ → (ℕ → S → S) → S → S
  for_range zero i body s = s
  for_range (suc n) i body s = for_range n (i + 1) body (body i s)

  -- The last round may be split off instead of the first.
  for_range_last :
      (n i : ℕ) (body : ℕ → S → S) (s : S)
      → for_range (suc n) i body s ≡ body (i + n) (for_range n i body s)
  unfolding for_range
  for_range_last zero i body s = ap (λ (k : ℕ). body k s) (omega arith)
  for_range_last (suc n) i body s =
      for_range_last n (i + 1) body (body i s)
      ∙ ap (λ (k : ℕ). body k (for_range n (i + 1) body (body i s))) (omega arith)

module _ {ℓ κ} {S : Type ℓ} (P : S → Type κ) (f : ℕ → S → S) where
  pub for_range_inv :
      ((j : ℕ) (s : S) → P s → P (f j s)) → (n i : ℕ) (s : S) → P s → P (for_range n i f s)
  unfolding for_range
  for_range_inv keep zero i s h = h
  for_range_inv keep (suc n) i s h = for_range_inv keep n (i + 1) (f i s) (keep i s h)

  -- If round `m` of the second loop, counted from its end, undoes round `m` of the first, then the
  -- second loop undoes the first.
  pub for_range_undo :
      (g : ℕ → S → S)
      → ((j : ℕ) (s : S) → P s → P (f j s))
      → (n i k : ℕ) → ((m : ℕ) (s : S) → m < n → P s → g (k + (n - 1 - m)) (f (i + m) s) ≡ s)
      → (s : S) → P s
      → for_range n k g (for_range n i f s) ≡ s
  unfolding for_range
  for_range_undo g keep zero i k back s h = refl
  for_range_undo g keep (suc n) i k back s h =
      ap (for_range (suc n) k g) (for_range_last n i f s)
      ∙ ap (for_range n (k + 1) g)
          (ap (λ (r : ℕ). g r (f (i + n) mid)) (omega arith) ∙ back n mid (omega arith) mid_ok)
      ∙ for_range_undo g keep n i (k + 1)
          (λ m t lt ok. ap (λ (r : ℕ). g r (f (i + m) t)) (omega arith) ∙ back m t (omega arith) ok)
          s h
    where
      mid : S
      mid = for_range n i f s

      mid_ok : P mid
      mid_ok = for_range_inv keep n i s h

  -- The same where every round of the second loop undoes every round of the first.
  pub for_range_undo_each :
      (g : ℕ → S → S)
      → ((j : ℕ) (s : S) → P s → P (f j s))
      → ((i j : ℕ) (s : S) → P s → g i (f j s) ≡ s)
      → (n i k : ℕ) (s : S) → P s
      → for_range n k g (for_range n i f s) ≡ s
  for_range_undo_each g keep back n i k s h =
      for_range_undo g keep n i k (λ m t lt ok. back (k + (n - 1 - m)) (i + m) t ok) s h
