-- ===== src/Base/Tables.antt =====
-- Facts about a bounded range, checked by evaluation at every value.
use php_botan.Base.Tests.{◌==◌, ==_iff, ltb, if◌then◌else◌}
use php_botan.Base.Lists.{All}
use php_botan.Base.Words.{IsByte}
use Prim.Native.Nat.{ℕ, zero, suc, ◌+◌, ◌<◌}
use mathlib.Core.Path.{◌≡◌, refl, ap, ◌∙◌}
use mathlib.Core.Bool.{Bool, true, false, ◌&&◌}
use mathlib.Core.List.{List, [], ◌∷◌}
use native.Mathlib.Omega.{arith}

-- Whether `p` holds at the `n` numbers from `i` on.
unfoldable pub all_from : ℕ → ℕ → (ℕ → Bool) → Bool
all_from zero i p = true
all_from (suc n) i p = let rest = all_from n (i + 1) p in if p i then rest else false

all_from_sound : (n i : ℕ) (p : ℕ → Bool) (k : ℕ) → all_from n i p ≡ true → k < n → p (i + k) ≡ true
unfolding all_from
all_from_sound zero i p k h lt = absurd (omega arith)
all_from_sound (suc n) i p zero h lt = ap p (omega arith) ∙ first (p i) (all_from n (i + 1) p) h
  where
    first : (b c : Bool) → (if b then c else false) ≡ true → b ≡ true
    first true c e = refl
    first false c e = e
all_from_sound (suc n) i p (suc k) h lt =
    let e : i + suc k ≡ i + 1 + k = omega arith in
    ap p e ∙ all_from_sound n (i + 1) p k (others (p i) (all_from n (i + 1) p) h) (omega arith)
  where
    others : (b c : Bool) → (if b then c else false) ≡ true → c ≡ true
    others true c e = e
    others false c e = cc

abbrev pub all_below : ℕ → (ℕ → Bool) → Bool
all_below n p = all_from n 0 p

pub all_below_sound : (n : ℕ) (p : ℕ → Bool) (x : ℕ) → all_below n p ≡ true → x < n → p x ≡ true
all_below_sound n p x h lt = let e : x ≡ 0 + x = omega arith in ap p e ∙ all_from_sound n 0 p x h lt

pub eq_by_table :
    (n : ℕ) (f g : ℕ → ℕ) (x : ℕ) → all_below n (λ y. f y == g y) ≡ true → x < n → f x ≡ g x
eq_by_table n f g x h lt = (==_iff (f x) (g x)).0 (all_below_sound n (λ y. f y == g y) x h lt)

-- Whether the numbers of a list are bytes.
abbrev pub are_bytes : List ℕ → Bool
are_bytes [] = true
are_bytes (b ∷ bs) = ltb b 256 && are_bytes bs

pub are_bytes_sound : (bs : List ℕ) → are_bytes bs ≡ true → All IsByte bs
are_bytes_sound [] h = tt
are_bytes_sound (b ∷ bs) h = (ground arith, are_bytes_sound bs (ground arith))
