-- ===== src/Utils/Names.antt =====
-- utils/parsing.cpp: algorithm names such as "CBC(AES,PKCS7)", and the comparison of X.500 names.
pub mod Compare
mod Tests
use php_botan.Base.{
  ℕ, zero, suc, ◌+◌, ◌-◌, List, [], ◌∷◌, ◌++◌, Bool, true, false, ◌&&◌, ◌||◌, not, Option, some,
  none, length, ◌==◌, if◌then◌else◌,
}
use php_botan.Base.Exceptn.{Result, ok, throw, ◌>>=◌, out_of_range, invalid_algorithm_name}
use php_botan.Utils.Charset.{is_space, caseless_cmp}

abbrev pub is_empty : List ℕ → Bool
is_empty [] = true
is_empty (c ∷ s) = false

-- `s.find(c) != std::string::npos`
abbrev pub contains : ℕ → List ℕ → Bool
contains c [] = false
contains c (d ∷ s) = d == c || contains c s

-- `name.substr(0, name.find('('))` and `name.substr(name.find('('))`; where there is no parenthesis the
-- second throws.
pub before_paren : List ℕ → List ℕ
before_paren [] = []
before_paren (c ∷ s) = let rest = before_paren s in if c == b'(' then [] else c ∷ rest

pub from_paren : List ℕ → Result (List ℕ)
from_paren [] = throw out_of_range
from_paren (c ∷ s) = let rest = from_paren s in if c == b'(' then ok (c ∷ s) else rest

-- `if(elems.size() == 1) elems.push_back(substring.substr(1)); else elems.push_back(substring);`
pub push_element : List (List ℕ) → List ℕ → Result (List (List ℕ))
push_element (only ∷ []) [] = throw out_of_range
push_element (only ∷ []) (c ∷ s) = ok (only ∷ s ∷ [])
push_element elems substring = ok (elems ++ substring ∷ [])

-- The loop over `name`; a character is the last one where nothing is left.
pub name_loop : ℕ → List ℕ → List (List ℕ) → List ℕ → Result (List (List ℕ))
unfolding push_element
name_loop level substring elems [] =
    if is_empty substring then ok elems else throw invalid_algorithm_name
name_loop level substring elems (c ∷ rest) =
    let level' = if c == b'(' then level + 1 else level in
    let closed = name_loop (level' - 1) (substring ++ c ∷ []) elems rest in
    let next_argument =
      push_element elems substring >>= λ elems'. name_loop level' [] elems' rest in
    let more = name_loop level' (substring ++ c ∷ []) elems rest in
    if c == b')'
    then (if level' == 1 && is_empty rest
        then push_element elems substring
        else if level' == 0 || level' == 1 && not (is_empty rest)
        then throw invalid_algorithm_name
        else closed)
    else if c == b',' && level' == 1
    then next_argument
    else more

unfoldable pub parse_algorithm_name : List ℕ → Result (List (List ℕ))
unfolding name_loop before_paren from_paren
parse_algorithm_name namex =
    if not (contains b'(' namex) && not (contains b')' namex)
    then ok (namex ∷ [])
    else from_paren namex >>= λ name. name_loop 0 [] (before_paren namex ∷ []) name

-- `while((p != end) && is_space(*p)) ++p;`
unfoldable pub skip_spaces : List ℕ → List ℕ
skip_spaces [] = []
skip_spaces (c ∷ s) = let rest = skip_spaces s in if is_space c then rest else c ∷ s

-- What follows the main loop of `x500_name_cmp`.
unfoldable pub names_end : List ℕ → List ℕ → Bool
unfolding skip_spaces
names_end p1 p2 = is_empty (skip_spaces p1) && is_empty (skip_spaces p2)

-- `caseless_cmp(*p1, *p2)` and what follows it in a round. `none` stands for an access at the end.
unfoldable pub compare_heads :
    (ℕ → ℕ) → (List ℕ → List ℕ → Option Bool) → List ℕ → List ℕ → Option Bool
compare_heads tolower next [] p2 = none
compare_heads tolower next (c ∷ p1) [] = none
compare_heads tolower next (c ∷ p1) (d ∷ p2) =
    if caseless_cmp tolower c d then next p1 p2 else some false

-- The main loop. A round takes a character off `p1` at least, or is the last.
unfoldable pub names_loop : (ℕ → ℕ) → ℕ → List ℕ → List ℕ → Option Bool
unfolding names_end compare_heads
names_loop tolower zero p1 p2 = some (names_end p1 p2)
names_loop tolower (suc fuel) [] p2 = some (names_end [] p2)
names_loop tolower (suc fuel) (c ∷ p1) [] = some (names_end (c ∷ p1) [])
names_loop tolower (suc fuel) (c ∷ p1) (d ∷ p2) =
    let q1 = skip_spaces p1 in
    let q2 = skip_spaces (d ∷ p2) in
    let skipped = compare_heads tolower (names_loop tolower fuel) q1 q2 in
    let heads = compare_heads tolower (names_loop tolower fuel) (c ∷ p1) (d ∷ p2) in
    if is_space c
    then (if not (is_space d)
        then some false
        else if is_empty q1 && is_empty q2
        then some true
        else skipped)
    else heads

unfoldable pub x500_name_cmp : (ℕ → ℕ) → List ℕ → List ℕ → Option Bool
unfolding names_loop
x500_name_cmp tolower name1 name2 =
    names_loop tolower (length name1) (skip_spaces name1) (skip_spaces name2)
