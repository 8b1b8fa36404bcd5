-- ===== src/Math/Comba/Cover.antt =====
-- The tables of math/bigint/mp_comba.cpp name every pair of words once, in the right columns.
use php_botan.Base.{
  ℕ, zero, suc, ◌+◌, ◌≡◌, refl, ap₂, arith, Bool, true, false, ◌&&◌, ◌==◌, ==_iff, if◌then◌else◌,
  Bool-cases, inl, inr, List, [], ◌∷◌, ◌++◌,
}
use php_botan.Math.Comba.Columns.{Term, once, twice}

-- The pairs of indices whose products a term adds.
abbrev pub term_pairs : Term → List (ℕ × ℕ)
term_pairs (once i j) = (i, j) ∷ []
term_pairs (twice i j) = (i, j) ∷ (j, i) ∷ []

abbrev pub column_pairs : List Term → List (ℕ × ℕ)
column_pairs [] = []
column_pairs (t ∷ ts) = term_pairs t ++ column_pairs ts

abbrev pub columns_pairs : List (List Term) → List (ℕ × ℕ)
columns_pairs [] = []
columns_pairs (c ∷ cs) = column_pairs c ++ columns_pairs cs

-- Every pair of column `k` adds up to `k`.
abbrev pub on_diagonal : ℕ → List (ℕ × ℕ) → Bool
on_diagonal k [] = true
on_diagonal k ((i, j) ∷ ps) = i + j == k && on_diagonal k ps

abbrev pub on_diagonals : ℕ → List (List Term) → Bool
on_diagonals k [] = true
on_diagonals k (c ∷ cs) = on_diagonal k (column_pairs c) && on_diagonals (suc k) cs

-- Whether a list consists of the pairs of the other, in whatever order.
abbrev pub without : ℕ × ℕ → List (ℕ × ℕ) → Bool × List (ℕ × ℕ)
without p [] = (false, [])
without p (q ∷ qs) =
    let rest = without p qs in if p.0 == q.0 && p.1 == q.1 then (true, qs) else (rest.0, q ∷ rest.1)

abbrev pub covers : List (ℕ × ℕ) → List (ℕ × ℕ) → Bool
covers [] [] = true
covers [] (q ∷ qs) = false
covers (p ∷ ps) qs = (without p qs).0 && covers ps (without p qs).1

-- The pairs `(i, j)`, `(i, j + 1)`, and so on.
abbrev pub line : ℕ → ℕ → ℕ → List (ℕ × ℕ)
line i j zero = []
line i j (suc n) = (i, j) ∷ line i (suc j) n

abbrev pub lines : ℕ → ℕ → ℕ → List (ℕ × ℕ)
lines i zero n = []
lines i (suc m) n = line i 0 n ++ lines (suc i) m n

pub both_true : (a b : Bool) → (a && b) ≡ true → (a ≡ true) × (b ≡ true)
both_true false b h = absurd (grind (arith, h))
both_true true b h = (refl, h)

module _ (f : ℕ × ℕ → ℕ) where
  abbrev pub amount : List (ℕ × ℕ) → ℕ
  amount [] = 0
  amount (p ∷ ps) = f p + amount ps

  pub amount-append : (ps qs : List (ℕ × ℕ)) → amount (ps ++ qs) ≡ amount ps + amount qs
  amount-append [] qs = omega arith
  amount-append (p ∷ ps) qs = omega (arith, amount-append ps qs)

  same_pair : (p q : ℕ × ℕ) → (p.0 == q.0 && p.1 == q.1) ≡ true → f p ≡ f q
  same_pair p q h =
      let (a, b) = both_true (p.0 == q.0) (p.1 == q.1) h in
      ap₂ (λ x y. f (x, y)) ((==_iff p.0 q.0).0 a) ((==_iff p.1 q.1).0 b)

  amount-without :
      (p : ℕ × ℕ) (qs : List (ℕ × ℕ))
      → (without p qs).0 ≡ true
      → amount qs ≡ f p + amount (without p qs).1
  amount-without p [] h = absurd (grind (arith, h))
  amount-without p (q ∷ qs) h = elim (Bool-cases (p.0 == q.0 && p.1 == q.1)) [
    | inl same ↦ rw same (omega (arith, same_pair p q same))
    | inr other ↦
        let found : (without p qs).0 ≡ true = rw other at h in
        rw other (omega (arith, amount-without p qs found))
  ]

  pub amount-covers : (ps qs : List (ℕ × ℕ)) → covers ps qs ≡ true → amount ps ≡ amount qs
  amount-covers [] [] h = refl
  amount-covers [] (q ∷ qs) h = absurd (grind (arith, h))
  amount-covers (p ∷ ps) qs h =
      let (found, rest) = both_true (without p qs).0 (covers ps (without p qs).1) h in
      omega (arith, amount-without p qs found, amount-covers ps (without p qs).1 rest)
