-- ===== src/Math/Comba/Squares.antt =====
-- math/bigint/mp_comba.cpp. The columns of the squares, in the order of the source.
use php_botan.Base.{List, [], ◌∷◌}
use php_botan.Math.Comba.Columns.{Term, once, twice}

abbrev pub sqr4 : List (List Term)
sqr4 =
    (once 0 0 ∷ [])
    ∷ (twice 0 1 ∷ [])
    ∷ (twice 0 2 ∷ once 1 1 ∷ [])
    ∷ (twice 0 3 ∷ twice 1 2 ∷ [])
    ∷ (twice 1 3 ∷ once 2 2 ∷ [])
    ∷ (twice 2 3 ∷ [])
    ∷ (once 3 3 ∷ [])
    ∷ []

abbrev pub sqr6 : List (List Term)
sqr6 =
    (once 0 0 ∷ [])
    ∷ (twice 0 1 ∷ [])
    ∷ (twice 0 2 ∷ once 1 1 ∷ [])
    ∷ (twice 0 3 ∷ twice 1 2 ∷ [])
    ∷ (twice 0 4 ∷ twice 1 3 ∷ once 2 2 ∷ [])
    ∷ (twice 0 5 ∷ twice 1 4 ∷ twice 2 3 ∷ [])
    ∷ (twice 1 5 ∷ twice 2 4 ∷ once 3 3 ∷ [])
    ∷ (twice 2 5 ∷ twice 3 4 ∷ [])
    ∷ (twice 3 5 ∷ once 4 4 ∷ [])
    ∷ (twice 4 5 ∷ [])
    ∷ (once 5 5 ∷ [])
    ∷ []

abbrev pub sqr8 : List (List Term)
sqr8 =
    (once 0 0 ∷ [])
    ∷ (twice 0 1 ∷ [])
    ∷ (twice 0 2 ∷ once 1 1 ∷ [])
    ∷ (twice 0 3 ∷ twice 1 2 ∷ [])
    ∷ (twice 0 4 ∷ twice 1 3 ∷ once 2 2 ∷ [])
    ∷ (twice 0 5 ∷ twice 1 4 ∷ twice 2 3 ∷ [])
    ∷ (twice 0 6 ∷ twice 1 5 ∷ twice 2 4 ∷ once 3 3 ∷ [])
    ∷ (twice 0 7 ∷ twice 1 6 ∷ twice 2 5 ∷ twice 3 4 ∷ [])
    ∷ (twice 1 7 ∷ twice 2 6 ∷ twice 3 5 ∷ once 4 4 ∷ [])
    ∷ (twice 2 7 ∷ twice 3 6 ∷ twice 4 5 ∷ [])
    ∷ (twice 3 7 ∷ twice 4 6 ∷ once 5 5 ∷ [])
    ∷ (twice 4 7 ∷ twice 5 6 ∷ [])
    ∷ (twice 5 7 ∷ once 6 6 ∷ [])
    ∷ (twice 6 7 ∷ [])
    ∷ (once 7 7 ∷ [])
    ∷ []

abbrev pub sqr16_low : List (List Term)
sqr16_low =
    (once 0 0 ∷ [])
    ∷ (twice 0 1 ∷ [])
    ∷ (twice 0 2 ∷ once 1 1 ∷ [])
    ∷ (twice 0 3 ∷ twice 1 2 ∷ [])
    ∷ (twice 0 4 ∷ twice 1 3 ∷ once 2 2 ∷ [])
    ∷ (twice 0 5 ∷ twice 1 4 ∷ twice 2 3 ∷ [])
    ∷ (twice 0 6 ∷ twice 1 5 ∷ twice 2 4 ∷ once 3 3 ∷ [])
    ∷ (twice 0 7 ∷ twice 1 6 ∷ twice 2 5 ∷ twice 3 4 ∷ [])
    ∷ (twice 0 8 ∷ twice 1 7 ∷ twice 2 6 ∷ twice 3 5 ∷ once 4 4 ∷ [])
    ∷ (twice 0 9 ∷ twice 1 8 ∷ twice 2 7 ∷ twice 3 6 ∷ twice 4 5 ∷ [])
    ∷ (twice 0 10 ∷ twice 1 9 ∷ twice 2 8 ∷ twice 3 7 ∷ twice 4 6 ∷ once 5 5 ∷ [])
    ∷ (twice 0 11 ∷ twice 1 10 ∷ twice 2 9 ∷ twice 3 8 ∷ twice 4 7 ∷ twice 5 6 ∷ [])
    ∷ (twice 0 12 ∷ twice 1 11 ∷ twice 2 10 ∷ twice 3 9 ∷ twice 4 8 ∷ twice 5 7 ∷ once 6 6 ∷ [])
    ∷ (twice 0 13 ∷ twice 1 12 ∷ twice 2 11 ∷ twice 3 10 ∷ twice 4 9 ∷ twice 5 8 ∷ twice 6 7 ∷ [])
    ∷ (twice 0 14
        ∷ twice 1 13
        ∷ twice 2 12
        ∷ twice 3 11
        ∷ twice 4 10
        ∷ twice 5 9
        ∷ twice 6 8
        ∷ once 7 7
        ∷ [])
    ∷ (twice 0 15
        ∷ twice 1 14
        ∷ twice 2 13
        ∷ twice 3 12
        ∷ twice 4 11
        ∷ twice 5 10
        ∷ twice 6 9
        ∷ twice 7 8
        ∷ [])
    ∷ []

abbrev pub sqr16_high : List (List Term)
sqr16_high =
    (twice 1 15
      ∷ twice 2 14
      ∷ twice 3 13
      ∷ twice 4 12
      ∷ twice 5 11
      ∷ twice 6 10
      ∷ twice 7 9
      ∷ once 8 8
      ∷ [])
    ∷ (twice 2 15 ∷ twice 3 14 ∷ twice 4 13 ∷ twice 5 12 ∷ twice 6 11 ∷ twice 7 10 ∷ twice 8 9 ∷ [])
    ∷ (twice 3 15 ∷ twice 4 14 ∷ twice 5 13 ∷ twice 6 12 ∷ twice 7 11 ∷ twice 8 10 ∷ once 9 9 ∷ [])
    ∷ (twice 4 15 ∷ twice 5 14 ∷ twice 6 13 ∷ twice 7 12 ∷ twice 8 11 ∷ twice 9 10 ∷ [])
    ∷ (twice 5 15 ∷ twice 6 14 ∷ twice 7 13 ∷ twice 8 12 ∷ twice 9 11 ∷ once 10 10 ∷ [])
    ∷ (twice 6 15 ∷ twice 7 14 ∷ twice 8 13 ∷ twice 9 12 ∷ twice 10 11 ∷ [])
    ∷ (twice 7 15 ∷ twice 8 14 ∷ twice 9 13 ∷ twice 10 12 ∷ once 11 11 ∷ [])
    ∷ (twice 8 15 ∷ twice 9 14 ∷ twice 10 13 ∷ twice 11 12 ∷ [])
    ∷ (twice 9 15 ∷ twice 10 14 ∷ twice 11 13 ∷ once 12 12 ∷ [])
    ∷ (twice 10 15 ∷ twice 11 14 ∷ twice 12 13 ∷ [])
    ∷ (twice 11 15 ∷ twice 12 14 ∷ once 13 13 ∷ [])
    ∷ (twice 12 15 ∷ twice 13 14 ∷ [])
    ∷ (twice 13 15 ∷ once 14 14 ∷ [])
    ∷ (twice 14 15 ∷ [])
    ∷ (once 15 15 ∷ [])
    ∷ []
