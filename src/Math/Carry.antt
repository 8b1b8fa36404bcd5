-- ===== src/Math/Carry.antt =====
-- Loops over words that pass a carry on, in blocks of eight and then one by one: mp_generic/mp_asmi.h
-- has the blocks, and math/bigint/mp_asm.cpp the loops.
use php_botan.Base.{
  ℕ, zero, suc, ◌+◌, ◌*◌, ◌^◌, ◌≤◌, ◌≡◌, refl, sym, ap, ◌∙◌, arith, List, [], ◌∷◌, ◌++◌, map, take,
  drop, length, take-append-drop, All,
}
use php_botan.Base.Words.{IsU32}
use php_botan.Math.Value.{AreWords, value, raised}

module _ {A : Type 0} (op : A → ℕ → ℕ × ℕ) where
  unfoldable pub carry_loop : ℕ → List A → List ℕ × ℕ
  carry_loop c [] = ([], c)
  carry_loop c (a ∷ args) =
      let (z, c1) = op a c in let (zs, c2) = carry_loop c1 args in (z ∷ zs, c2)

  -- One of the `word8_` functions on each eight words, and `op` on what is left.
  unfoldable pub eights : ℕ → ℕ → List A → List ℕ × ℕ
  unfolding carry_loop
  eights zero c args = carry_loop c args
  eights (suc rounds) c args =
      let (z, c1) = carry_loop c (take 8 args) in
      let (zs, c2) = eights rounds c1 (drop 8 args) in (z ++ zs, c2)

  carry_loop-append :
      (c : ℕ) (args bs : List A)
      → carry_loop c (args ++ bs) ≡ (
        (carry_loop c args).0 ++ (carry_loop (carry_loop c args).1 bs).0,
        (carry_loop (carry_loop c args).1 bs).1,
      )
  unfolding carry_loop
  carry_loop-append c [] bs = refl
  carry_loop-append c (a ∷ args) bs =
      ap (λ (r : List ℕ × ℕ). ((op a c).0 ∷ r.0, r.1)) (carry_loop-append (op a c).1 args bs)

  -- The blocks make no difference.
  pub eights-carry_loop : (n c : ℕ) (args : List A) → eights n c args ≡ carry_loop c args
  unfolding eights
  eights-carry_loop zero c args = refl
  eights-carry_loop (suc n) c args =
      ap (λ (r : List ℕ × ℕ). ((carry_loop c (take 8 args)).0 ++ r.0, r.1))
        (eights-carry_loop n (carry_loop c (take 8 args)).1 (drop 8 args))
      ∙ sym (carry_loop-append c (take 8 args) (drop 8 args))
      ∙ ap (carry_loop c) (take-append-drop 8 args)

  pub length-carry_loop : (c : ℕ) (args : List A) → length (carry_loop c args).0 ≡ length args
  unfolding carry_loop
  length-carry_loop c [] = refl
  length-carry_loop c (a ∷ args) = ap suc (length-carry_loop (op a c).1 args)

-- A step that adds: the word and the carry make up the step's amount and the carry before it.
abbrev pub Adds : {A : Type 0} → (A → ℕ → ℕ × ℕ) → (A → ℕ) → (A → Type 0) → ℕ → Type 0
Adds {A} op amount Ok most =
    (a : A) (c : ℕ)
    → Ok a
    → c ≤ most
    → ((op a c).0 + 2 ^ 32 * (op a c).1 ≡ amount a + c) × IsU32 (op a c).0 × ((op a c).1 ≤ most)

-- A step that subtracts, with a borrow.
abbrev pub Subtracts : {A : Type 0} → (A → ℕ → ℕ × ℕ) → (A → ℕ) → (A → ℕ) → (A → Type 0) → Type 0
Subtracts {A} op from what Ok =
    (a : A) (c : ℕ)
    → Ok a
    → c ≤ 1
    → ((op a c).0 + what a + c ≡ from a + 2 ^ 32 * (op a c).1) × IsU32 (op a c).0 × ((op a c).1 ≤ 1)

module _ {A : Type 0} (op : A → ℕ → ℕ × ℕ) (amount : A → ℕ) (Ok : A → Type 0) (most : ℕ)
    (adds : Adds op amount Ok most) where
  pub carry_loop-adds :
      (c : ℕ) (args : List A)
      → All Ok args
      → c ≤ most
      → (value (carry_loop op c args).0 + raised (length args) (carry_loop op c args).1
          ≡ value (map amount args) + c)
        × AreWords (carry_loop op c args).0
        × ((carry_loop op c args).1 ≤ most)
  unfolding carry_loop value raised
  carry_loop-adds c [] h g = (omega arith, tt, g)
  carry_loop-adds c (a ∷ args) (h, hs) g =
      let first = adds a c h g in
      let rest = carry_loop-adds (op a c).1 args hs first.2 in
      (omega (arith, first.0, rest.0), (first.1, rest.1), rest.2)

module _ {A : Type 0} (op : A → ℕ → ℕ × ℕ) (from what : A → ℕ) (Ok : A → Type 0)
    (subtracts : Subtracts op from what Ok) where
  pub carry_loop-subtracts :
      (c : ℕ) (args : List A)
      → All Ok args
      → c ≤ 1
      → (value (carry_loop op c args).0 + value (map what args) + c
          ≡ value (map from args) + raised (length args) (carry_loop op c args).1)
        × AreWords (carry_loop op c args).0
        × ((carry_loop op c args).1 ≤ 1)
  unfolding carry_loop value raised
  carry_loop-subtracts c [] h g = (omega arith, tt, g)
  carry_loop-subtracts c (a ∷ args) (h, hs) g =
      let first = subtracts a c h g in
      let rest = carry_loop-subtracts (op a c).1 args hs first.2 in
      (omega (arith, first.0, rest.0), (first.1, rest.1), rest.2)
