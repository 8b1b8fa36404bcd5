-- ===== src/Math/Comba/Products.antt =====
-- math/bigint/mp_comba.cpp. The columns of the products, in the order of the source: the
-- pairs of indices that `word3_muladd` is called with.
use php_botan.Base.{ℕ, List, [], ◌∷◌}

abbrev pub mul4 : List (List (ℕ × ℕ))
mul4 =
    ((0, 0) ∷ [])
    ∷ ((0, 1) ∷ (1, 0) ∷ [])
    ∷ ((0, 2) ∷ (1, 1) ∷ (2, 0) ∷ [])
    ∷ ((0, 3) ∷ (1, 2) ∷ (2, 1) ∷ (3, 0) ∷ [])
    ∷ ((1, 3) ∷ (2, 2) ∷ (3, 1) ∷ [])
    ∷ ((2, 3) ∷ (3, 2) ∷ [])
    ∷ ((3, 3) ∷ [])
    ∷ []

abbrev pub mul6 : List (List (ℕ × ℕ))
mul6 =
    ((0, 0) ∷ [])
    ∷ ((0, 1) ∷ (1, 0) ∷ [])
    ∷ ((0, 2) ∷ (1, 1) ∷ (2, 0) ∷ [])
    ∷ ((0, 3) ∷ (1, 2) ∷ (2, 1) ∷ (3, 0) ∷ [])
    ∷ ((0, 4) ∷ (1, 3) ∷ (2, 2) ∷ (3, 1) ∷ (4, 0) ∷ [])
    ∷ ((0, 5) ∷ (1, 4) ∷ (2, 3) ∷ (3, 2) ∷ (4, 1) ∷ (5, 0) ∷ [])
    ∷ ((1, 5) ∷ (2, 4) ∷ (3, 3) ∷ (4, 2) ∷ (5, 1) ∷ [])
    ∷ ((2, 5) ∷ (3, 4) ∷ (4, 3) ∷ (5, 2) ∷ [])
    ∷ ((3, 5) ∷ (4, 4) ∷ (5, 3) ∷ [])
    ∷ ((4, 5) ∷ (5, 4) ∷ [])
    ∷ ((5, 5) ∷ [])
    ∷ []

abbrev pub mul8 : List (List (ℕ × ℕ))
mul8 =
    ((0, 0) ∷ [])
    ∷ ((0, 1) ∷ (1, 0) ∷ [])
    ∷ ((0, 2) ∷ (1, 1) ∷ (2, 0) ∷ [])
    ∷ ((0, 3) ∷ (1, 2) ∷ (2, 1) ∷ (3, 0) ∷ [])
    ∷ ((0, 4) ∷ (1, 3) ∷ (2, 2) ∷ (3, 1) ∷ (4, 0) ∷ [])
    ∷ ((0, 5) ∷ (1, 4) ∷ (2, 3) ∷ (3, 2) ∷ (4, 1) ∷ (5, 0) ∷ [])
    ∷ ((0, 6) ∷ (1, 5) ∷ (2, 4) ∷ (3, 3) ∷ (4, 2) ∷ (5, 1) ∷ (6, 0) ∷ [])
    ∷ ((0, 7) ∷ (1, 6) ∷ (2, 5) ∷ (3, 4) ∷ (4, 3) ∷ (5, 2) ∷ (6, 1) ∷ (7, 0) ∷ [])
    ∷ ((1, 7) ∷ (2, 6) ∷ (3, 5) ∷ (4, 4) ∷ (5, 3) ∷ (6, 2) ∷ (7, 1) ∷ [])
    ∷ ((2, 7) ∷ (3, 6) ∷ (4, 5) ∷ (5, 4) ∷ (6, 3) ∷ (7, 2) ∷ [])
    ∷ ((3, 7) ∷ (4, 6) ∷ (5, 5) ∷ (6, 4) ∷ (7, 3) ∷ [])
    ∷ ((4, 7) ∷ (5, 6) ∷ (6, 5) ∷ (7, 4) ∷ [])
    ∷ ((5, 7) ∷ (6, 6) ∷ (7, 5) ∷ [])
    ∷ ((6, 7) ∷ (7, 6) ∷ [])
    ∷ ((7, 7) ∷ [])
    ∷ []
