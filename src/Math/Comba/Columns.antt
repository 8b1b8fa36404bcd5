-- ===== src/Math/Comba/Columns.antt =====
-- The scheme of math/bigint/mp_comba.cpp: each column adds products of two words to three words, whose
-- lowest is then the next word of the result.
use php_botan.Base.{ℕ, zero, suc, List, [], ◌∷◌, map}
use php_botan.Math.Word.{Word3, word3_muladd, word3_muladd_2}

-- `once i j` is `word3_muladd(.., x[i], y[j])`, and `twice i j` is `word3_muladd_2(.., x[i], y[j])`.
pub data Term : Type 0 where
  once : ℕ → ℕ → Term
  twice : ℕ → ℕ → Term

-- `x[i]`; the arrays hold every word that is read.
abbrev pub word_at : List ℕ → ℕ → ℕ
word_at [] i = 0
word_at (x ∷ xs) zero = x
word_at (x ∷ xs) (suc i) = word_at xs i

unfoldable pub run_term : List ℕ → List ℕ → Word3 → Term → Word3
unfolding word3_muladd word3_muladd_2
run_term x y w (once i j) = word3_muladd w (word_at x i) (word_at y j)
run_term x y w (twice i j) = word3_muladd_2 w (word_at x i) (word_at y j)

unfoldable pub run_column : List ℕ → List ℕ → Word3 → List Term → Word3
unfolding run_term
run_column x y w [] = w
run_column x y w (t ∷ ts) = run_column x y (run_term x y w t) ts

-- The words of the result from the column on: `z[k] = w0; w0 = w1; w1 = w2; w2 = 0;` behind each
-- column, and `z[k] = w0; z[k + 1] = w1;` behind the last.
unfoldable pub run_columns : List ℕ → List ℕ → Word3 → List (List Term) → List ℕ
unfolding run_column
run_columns x y (w0, w1, w2) [] = w0 ∷ []
run_columns x y w (c ∷ cs) =
    let (w0, w1, w2) = run_column x y w c in w0 ∷ run_columns x y (w1, w2, 0) cs

-- The columns of a product have no `word3_muladd_2`.
abbrev pub products : List (List (ℕ × ℕ)) → List (List Term)
products = map (map (λ (p : ℕ × ℕ). once p.0 p.1))
