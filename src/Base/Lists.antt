-- ===== src/Base/Lists.antt =====
-- Byte and word arrays as lists, measured and indexed by native numbers.
use Prim.Native.Nat.{ℕ, zero, suc, ◌+◌, ◌-◌, ◌≤◌, ◌<◌, min}
use mathlib.Core.Option.{Option, none, some}
use mathlib.Core.Path.{◌≡◌, refl, sym, ap, ◌∙◌}
use mathlib.Core.List.{List, [], ◌∷◌, ◌++◌}
use native.Mathlib.Omega.{arith}

module _ {ℓ} {A : Type ℓ} where
  abbrev pub length : List A → ℕ
  length [] = 0
  length (x ∷ xs) = suc (length xs)

  abbrev pub get_or : List A → ℕ → A → A
  get_or [] i d = d
  get_or (x ∷ xs) zero d = x
  get_or (x ∷ xs) (suc i) d = get_or xs i d

  abbrev pub get_elem? : List A → ℕ → Option A
  get_elem? [] i = none
  get_elem? (x ∷ xs) zero = some x
  get_elem? (x ∷ xs) (suc i) = get_elem? xs i

  abbrev pub take : ℕ → List A → List A
  take zero xs = []
  take (suc n) [] = []
  take (suc n) (x ∷ xs) = x ∷ take n xs

  abbrev pub drop : ℕ → List A → List A
  drop zero xs = xs
  drop (suc n) [] = []
  drop (suc n) (x ∷ xs) = drop n xs

  -- A write out of bounds changes nothing.
  abbrev pub set : List A → ℕ → A → List A
  set [] i v = []
  set (x ∷ xs) zero v = v ∷ xs
  set (x ∷ xs) (suc i) v = x ∷ set xs i v

  abbrev pub replicate : ℕ → A → List A
  replicate zero a = []
  replicate (suc n) a = a ∷ replicate n a

  abbrev pub All {κ} : (A → Type κ) → List A → Type κ
  All P [] = Unit {κ}
  All P (x ∷ xs) = P x × All P xs

module _ {ℓ} {A : Type ℓ} where
  -- A read within the list.
  pub get_elem?-get_or :
      (xs : List A) (i : ℕ) (d : A) → i < length xs → get_elem? xs i ≡ some (get_or xs i d)
  get_elem?-get_or [] i d h = absurd (omega arith)
  get_elem?-get_or (x ∷ xs) zero d h = refl
  get_elem?-get_or (x ∷ xs) (suc i) d h = get_elem?-get_or xs i d (omega arith)

  -- A read behind the list.
  pub get_elem?-behind : (xs : List A) (i : ℕ) → length xs ≤ i → get_elem? xs i ≡ none
  get_elem?-behind [] i h = refl
  get_elem?-behind (x ∷ xs) zero h = absurd (omega arith)
  get_elem?-behind (x ∷ xs) (suc i) h = get_elem?-behind xs i (omega arith)

  pub length-append : (xs ys : List A) → length (xs ++ ys) ≡ length xs + length ys
  length-append [] ys = omega arith
  length-append (x ∷ xs) ys = omega (arith, length-append xs ys)

  pub length-take : (n : ℕ) (xs : List A) → length (take n xs) ≡ min n (length xs)
  length-take zero xs = omega arith
  length-take (suc n) [] = omega arith
  length-take (suc n) (x ∷ xs) = omega (arith, length-take n xs)

  pub length-drop : (n : ℕ) (xs : List A) → length (drop n xs) ≡ length xs - n
  length-drop zero xs = omega arith
  length-drop (suc n) [] = omega arith
  length-drop (suc n) (x ∷ xs) = omega (arith, length-drop n xs)

  pub length-replicate : (n : ℕ) (a : A) → length (replicate n a) ≡ n
  length-replicate zero a = refl
  length-replicate (suc n) a = ap suc (length-replicate n a)

  pub take-append-drop : (n : ℕ) (xs : List A) → take n xs ++ drop n xs ≡ xs
  take-append-drop zero xs = refl
  take-append-drop (suc n) [] = refl
  take-append-drop (suc n) (x ∷ xs) = ap (λ t. x ∷ t) (take-append-drop n xs)

  pub take_all : (n : ℕ) (xs : List A) → length xs ≤ n → take n xs ≡ xs
  take_all zero [] h = refl
  take_all zero (x ∷ xs) h = absurd (omega arith)
  take_all (suc n) [] h = refl
  take_all (suc n) (x ∷ xs) h = ap (λ t. x ∷ t) (take_all n xs (omega arith))

  pub drop_all : (n : ℕ) (xs : List A) → length xs ≤ n → drop n xs ≡ []
  drop_all zero [] h = refl
  drop_all zero (x ∷ xs) h = absurd (omega arith)
  drop_all (suc n) [] h = refl
  drop_all (suc n) (x ∷ xs) h = drop_all n xs (omega arith)

  pub take-append_left : (xs ys : List A) (n : ℕ) → n ≤ length xs → take n (xs ++ ys) ≡ take n xs
  take-append_left [] ys zero h = refl
  take-append_left [] ys (suc n) h = absurd (omega arith)
  take-append_left (x ∷ xs) ys zero h = refl
  take-append_left (x ∷ xs) ys (suc n) h = ap (λ t. x ∷ t) (take-append_left xs ys n (omega arith))

  pub take-append_exact : (xs ys : List A) (n : ℕ) → n ≡ length xs → take n (xs ++ ys) ≡ xs
  take-append_exact [] ys zero h = refl
  take-append_exact [] ys (suc n) h = absurd (omega arith)
  take-append_exact (x ∷ xs) ys zero h = absurd (omega arith)
  take-append_exact (x ∷ xs) ys (suc n) h =
      ap (λ t. x ∷ t) (take-append_exact xs ys n (omega arith))

  pub drop-append_exact : (xs ys : List A) (n : ℕ) → n ≡ length xs → drop n (xs ++ ys) ≡ ys
  drop-append_exact [] ys zero h = refl
  drop-append_exact [] ys (suc n) h = absurd (omega arith)
  drop-append_exact (x ∷ xs) ys zero h = absurd (omega arith)
  drop-append_exact (x ∷ xs) ys (suc n) h = drop-append_exact xs ys n (omega arith)

  pub drop-append_left :
      (k : ℕ) (xs ys : List A) → k ≤ length xs → drop k (xs ++ ys) ≡ drop k xs ++ ys
  drop-append_left zero xs ys h = refl
  drop-append_left (suc k) [] ys h = absurd (omega arith)
  drop-append_left (suc k) (x ∷ xs) ys h = drop-append_left k xs ys (omega arith)

  pub drop-append_past :
      (k : ℕ) (xs ys : List A) → length xs ≤ k → drop k (xs ++ ys) ≡ drop (k - length xs) ys
  drop-append_past k [] ys h = let e : k ≡ k - 0 = omega arith in ap (λ (n : ℕ). drop n ys) e
  drop-append_past zero (x ∷ xs) ys h = absurd (omega arith)
  drop-append_past (suc k) (x ∷ xs) ys h =
      let e : k - length xs ≡ suc k - suc (length xs) = omega arith in
      drop-append_past k xs ys (omega arith) ∙ ap (λ (n : ℕ). drop n ys) e

  pub take-append_past :
      (k : ℕ) (xs ys : List A) → length xs ≤ k → take k (xs ++ ys) ≡ xs ++ take (k - length xs) ys
  take-append_past k [] ys h = let e : k ≡ k - 0 = omega arith in ap (λ (n : ℕ). take n ys) e
  take-append_past zero (x ∷ xs) ys h = absurd (omega arith)
  take-append_past (suc k) (x ∷ xs) ys h =
      let e : k - length xs ≡ suc k - suc (length xs) = omega arith in
      ap (λ t. x ∷ t) (take-append_past k xs ys (omega arith) ∙ ap (λ (n : ℕ). xs ++ take n ys) e)

  pub take-append :
      (k : ℕ) (xs ys : List A) → take k (xs ++ ys) ≡ take k xs ++ take (k - length (take k xs)) ys
  take-append zero xs ys = refl
  take-append (suc k) [] ys = let e : suc k ≡ suc k - 0 = omega arith in ap (λ (n : ℕ). take n ys) e
  take-append (suc k) (x ∷ xs) ys =
      let e : k - length (take k xs) ≡ suc k - suc (length (take k xs)) = omega arith in
      ap (λ t. x ∷ t) (take-append k xs ys ∙ ap (λ (n : ℕ). take k xs ++ take n ys) e)

  pub take-min : (k : ℕ) (xs : List A) → take (min k (length xs)) xs ≡ take k xs
  take-min zero xs =
      let e : min zero (length xs) ≡ zero = omega arith in ap (λ (n : ℕ). take n xs) e
  take-min (suc k) [] =
      let e : min (suc k) 0 ≡ zero = omega arith in ap (λ (n : ℕ). take {A = A} n []) e
  take-min (suc k) (x ∷ xs) =
      let e : min (suc k) (suc (length xs)) ≡ suc (min k (length xs)) = omega arith in
      ap (λ (n : ℕ). take n (x ∷ xs)) e ∙ ap (λ t. x ∷ t) (take-min k xs)

  pub drop_nil : (n : ℕ) → drop {A = A} n [] ≡ []
  drop_nil zero = refl
  drop_nil (suc n) = refl

  pub take_nil : (n : ℕ) → take {A = A} n [] ≡ []
  take_nil zero = refl
  take_nil (suc n) = refl

  pub drop-drop : (j k : ℕ) (xs : List A) → drop j (drop k xs) ≡ drop (k + j) xs
  drop-drop j zero xs = let e : j ≡ zero + j = omega arith in ap (λ (n : ℕ). drop n xs) e
  drop-drop j (suc k) [] = drop_nil j ∙ sym (drop_nil (suc k + j))
  drop-drop j (suc k) (x ∷ xs) =
      let e : suc (k + j) ≡ suc k + j = omega arith in
      drop-drop j k xs ∙ ap (λ (n : ℕ). drop n (x ∷ xs)) e

  pub take-take : (k n : ℕ) (xs : List A) → k ≤ n → take k (take n xs) ≡ take k xs
  take-take zero n xs h = refl
  take-take (suc k) zero xs h = absurd (omega arith)
  take-take (suc k) (suc n) [] h = refl
  take-take (suc k) (suc n) (x ∷ xs) h = ap (λ t. x ∷ t) (take-take k n xs (omega arith))

  pub drop-take : (k n : ℕ) (xs : List A) → k ≤ n → drop k (take n xs) ≡ take (n - k) (drop k xs)
  drop-take zero n xs h = let e : n ≡ n - 0 = omega arith in ap (λ (i : ℕ). take i xs) e
  drop-take (suc k) zero xs h = absurd (omega arith)
  drop-take (suc k) (suc n) [] h = sym (take_nil (suc n - suc k))
  drop-take (suc k) (suc n) (x ∷ xs) h =
      let e : n - k ≡ suc n - suc k = omega arith in
      drop-take k n xs (omega arith) ∙ ap (λ (i : ℕ). take i (drop k xs)) e

  pub drop_head :
      (j : ℕ) (xs : List A) (d : A) → j < length xs → drop j xs ≡ get_or xs j d ∷ drop (j + 1) xs
  drop_head j [] d h = absurd (omega arith)
  drop_head zero (x ∷ xs) d h = refl
  drop_head (suc j) (x ∷ xs) d h =
      let e : suc (j + 1) ≡ suc j + 1 = omega arith in
      drop_head j xs d (omega arith) ∙ ap (λ (i : ℕ). get_or xs j d ∷ drop i (x ∷ xs)) e

module _ {ℓ κ} {A : Type ℓ} (P : A → Type κ) where
  pub All-append : (xs ys : List A) → All P xs → All P ys → All P (xs ++ ys)
  All-append [] ys hx hy = hy
  All-append (x ∷ xs) ys (h, hx) hy = (h, All-append xs ys hx hy)

  pub All-take : (n : ℕ) (xs : List A) → All P xs → All P (take n xs)
  All-take zero xs h = tt
  All-take (suc n) [] h = tt
  All-take (suc n) (x ∷ xs) (h, hs) = (h, All-take n xs hs)

  pub All-drop : (n : ℕ) (xs : List A) → All P xs → All P (drop n xs)
  All-drop zero xs h = h
  All-drop (suc n) [] h = tt
  All-drop (suc n) (x ∷ xs) (h, hs) = All-drop n xs hs
