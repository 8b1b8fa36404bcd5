-- ===== src/Utils/Parsing/Split.antt =====
-- `split_on` undoes joining: parts that are not empty and have no delimiter come back.
use php_botan.Base.{
  ℕ, ◌<◌, ◌≡◌, ◌≢◌, refl, ap, ◌∙◌, sym, arith, List, [], ◌∷◌, ◌++◌, append-nil, append_assoc,
  length-append, All, length, true, false, ◌==◌,
}
use php_botan.Base.Exceptn.{ok}
use php_botan.Utils.Parsing.{push_nonempty, split_loop, split_end, split_on}

-- A part: not empty, and without the delimiter.
abbrev pub IsPart : ℕ → List ℕ → Type 0
IsPart delim s = (0 < length s) × All (λ c. c ≢ delim) s

-- The parts with the delimiter between them.
unfoldable pub join : ℕ → List (List ℕ) → List ℕ
join delim [] = []
join delim (s ∷ []) = s
join delim (s ∷ t ∷ rest) = s ++ (delim ∷ join delim (t ∷ rest))

ne-test : (c d : ℕ) → c ≢ d → (c == d) ≡ false
ne-test c d h = ground arith

test_self : (d : ℕ) → (d == d) ≡ true
test_self d = ground arith

pub split_loop-append :
    (delim : ℕ) (elems : List (List ℕ)) (substr s rest : List ℕ)
    → All (λ c. c ≢ delim) s
    → split_loop delim elems substr (s ++ rest) ≡ split_loop delim elems (substr ++ s) rest
unfolding split_loop
split_loop-append delim elems substr [] rest h =
    ap (λ t. split_loop delim elems t rest) (sym (append-nil substr))
split_loop-append delim elems substr (c ∷ s) rest (h, hs) =
    step
    ∙ split_loop-append delim elems (substr ++ c ∷ []) s rest hs
    ∙ ap (λ t. split_loop delim elems t rest) (append_assoc substr (c ∷ []) s)
  where
    step :
        split_loop delim elems substr (c ∷ s ++ rest)
        ≡ split_loop delim elems (substr ++ c ∷ []) (s ++ rest)
    step = rw (split_loop, ne-test c delim h) refl

push_part :
    (delim : ℕ) (elems : List (List ℕ)) (s : List ℕ)
    → IsPart delim s
    → push_nonempty elems s ≡ elems ++ s ∷ []
unfolding push_nonempty
push_part delim elems [] (pos, h) = absurd (omega arith)
push_part delim elems (c ∷ s) h = refl

split_loop_cut :
    (delim : ℕ) (elems : List (List ℕ)) (s rest : List ℕ)
    → IsPart delim s
    → split_loop delim elems [] (s ++ (delim ∷ rest)) ≡ split_loop delim (elems ++ s ∷ []) [] rest
unfolding split_loop
split_loop_cut delim elems s rest h =
    split_loop-append delim elems [] s (delim ∷ rest) h.1
    ∙ rw (split_loop, test_self delim, push_part delim elems s h) refl

split_end-part :
    (delim : ℕ) (elems : List (List ℕ)) (s : List ℕ)
    → IsPart delim s
    → split_end (split_loop delim elems s []) ≡ ok (elems ++ s ∷ [])
unfolding split_end split_loop
split_end-part delim elems [] h = absurd (omega arith)
split_end-part delim elems (c ∷ s) h = refl

split_loop-join :
    (delim : ℕ) (elems : List (List ℕ)) (s : List ℕ) (parts : List (List ℕ))
    → All (IsPart delim) (s ∷ parts)
    → split_end (split_loop delim elems [] (join delim (s ∷ parts))) ≡ ok (elems ++ s ∷ parts)
unfolding join
split_loop-join delim elems s [] (h, hs) =
    ap (λ t. split_end (split_loop delim elems [] t)) (sym (append-nil s))
    ∙ ap split_end (split_loop-append delim elems [] s [] h.1)
    ∙ split_end-part delim elems s h
split_loop-join delim elems s (t ∷ parts) (h, hs) =
    ap split_end (split_loop_cut delim elems s (join delim (t ∷ parts)) h)
    ∙ split_loop-join delim (elems ++ s ∷ []) t parts hs
    ∙ ap ok (append_assoc elems (s ∷ []) (t ∷ parts))

split_on-nonempty :
    (delim : ℕ) (t : List ℕ)
    → 0 < length t
    → split_on t delim ≡ split_end (split_loop delim [] [] t)
unfolding split_on
split_on-nonempty delim [] h = absurd (omega arith)
split_on-nonempty delim (c ∷ t) h = refl

join-nonempty :
    (delim : ℕ) (s : List ℕ) (parts : List (List ℕ))
    → 0 < length s
    → 0 < length (join delim (s ∷ parts))
unfolding join
join-nonempty delim s [] h = h
join-nonempty delim s (t ∷ parts) h =
    omega (arith, length-append s (delim ∷ join delim (t ∷ parts)))

-- Splitting a joined text gives the parts, if there is one part at least and every part has a
-- character and is free of the delimiter.
pub split_on-join :
    (delim : ℕ) (s : List ℕ) (parts : List (List ℕ))
    → All (IsPart delim) (s ∷ parts)
    → split_on (join delim (s ∷ parts)) delim ≡ ok (s ∷ parts)
split_on-join delim s parts h =
    split_on-nonempty delim (join delim (s ∷ parts)) (join-nonempty delim s parts h.0.0)
    ∙ split_loop-join delim [] s parts h
