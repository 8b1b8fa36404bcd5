-- ===== src/Checksum/Unrolled.antt =====
-- The loops of the CRC checksums: sixteen bytes to a round, and then one at a time.
use php_botan.Base.{
  ℕ, zero, suc, ◌≡◌, refl, sym, ap, ◌∙◌, List, [], ◌∷◌, ◌++◌, take, drop, take-append-drop,
}

module _ {ℓ} {S : Type ℓ} (step : S → ℕ → S) where
  -- `for(u32bit j = 0; j != length; ++j) tmp = step(tmp, input[j]);`
  abbrev pub add_each : S → List ℕ → S
  add_each s [] = s
  add_each s (b ∷ bs) = add_each (step s b) bs

  -- `while(length >= 16)`, with the number of rounds, and then the loop above.
  unfoldable pub add_rounds : ℕ → S → List ℕ → S
  add_rounds zero s input = add_each s input
  add_rounds (suc rounds) s input = add_rounds rounds (add_each s (take 16 input)) (drop 16 input)

  pub add_each-append :
      (s : S) (xs ys : List ℕ) → add_each s (xs ++ ys) ≡ add_each (add_each s xs) ys
  add_each-append s [] ys = refl
  add_each-append s (x ∷ xs) ys = add_each-append (step s x) xs ys

  pub add_rounds-add_each :
      (n : ℕ) (s : S) (input : List ℕ) → add_rounds n s input ≡ add_each s input
  unfolding add_rounds
  add_rounds-add_each zero s input = refl
  add_rounds-add_each (suc n) s input =
      add_rounds-add_each n (add_each s (take 16 input)) (drop 16 input)
      ∙ sym (add_each-append s (take 16 input) (drop 16 input))
      ∙ ap (add_each s) (take-append-drop 16 input)
