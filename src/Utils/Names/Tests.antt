-- ===== src/Utils/Names/Tests.antt =====
-- Names at concrete texts.
use php_botan.Base.{ℕ, ◌≡◌, refl, List, [], ◌∷◌, true, some, none}
use php_botan.Base.Exceptn.{ok, throw, out_of_range}
use php_botan.Utils.Names.{parse_algorithm_name, x500_name_cmp}
use php_botan.Utils.Names.Compare.{x500_name_cmp_self, x500_name_cmp_overrun}
use php_botan.Utils.Charset.Digits.{is_space_letter}

abbrev same : ℕ → ℕ
same c = c

-- " Ab  c"
abbrev spaced : List ℕ
spaced = b' ' ∷ b'A' ∷ b'b' ∷ b' ' ∷ b' ' ∷ b'c' ∷ []

x500_name_cmp_self_example : x500_name_cmp same spaced spaced ≡ some true
x500_name_cmp_self_example = x500_name_cmp_self same spaced

x500_name_cmp_overrun_example :
    x500_name_cmp same (b'a' ∷ b' ' ∷ []) (b'a' ∷ b' ' ∷ b'b' ∷ []) ≡ none
x500_name_cmp_overrun_example =
    x500_name_cmp_overrun same b'a' b'b' [] (is_space_letter b'a' refl) (is_space_letter b'b' refl)

-- "A(B,C(D))"
abbrev nested : List ℕ
nested = b'A' ∷ b'(' ∷ b'B' ∷ b',' ∷ b'C' ∷ b'(' ∷ b'D' ∷ b')' ∷ b')' ∷ []

nested_parsed :
    parse_algorithm_name nested
    ≡ ok ((b'A' ∷ []) ∷ (b'B' ∷ []) ∷ (b'C' ∷ b'(' ∷ b'D' ∷ b')' ∷ []) ∷ [])
unfolding parse_algorithm_name
nested_parsed = refl

-- "A)"
closed_only : parse_algorithm_name (b'A' ∷ b')' ∷ []) ≡ throw out_of_range
unfolding parse_algorithm_name
closed_only = refl
