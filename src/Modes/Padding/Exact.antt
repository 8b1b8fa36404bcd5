-- ===== src/Modes/Padding/Exact.antt =====
-- What `unpad` accepts, rejects and overruns on, over every block.
use php_botan.Base.{
  ℕ, zero, suc, ◌+◌, ◌-◌, ◌<◌, ◌≤◌, ◌≡◌, ◌↔◌, refl, ap, ap₂, ◌∙◌, arith, List, [], ◌∷◌, ◌++◌, false,
  take, drop, length, replicate, get_or, get_elem?, get_elem?-get_or, length-drop, drop_all,
  take-append-drop, sym, Bool-cases, some, inl, inr, ltb, ◌==◌, ==_iff, if◌then◌else◌,
}
use php_botan.Modes.Padding.{
  Unpadded, pkcs7, ansi_x923, one_and_zeros, check_from, position, decoding_error, overrun,
  unpad_counted, one_and_zeros_unpad, unpad,
}

-- A loop of `k` rounds within the block does not read behind it.
check_from-stays :
    (k to value result j : ℕ) (rest : List ℕ)
    → j + k ≡ to
    → k ≤ length rest
    → check_from to value result j rest ≡ overrun
    → ⊥
unfolding check_from
check_from-stays zero to value result j [] e h o = ground arith
check_from-stays (suc k) to value result j [] e h o = absurd (omega arith)
check_from-stays zero to value result j (b ∷ rest) e h o = ground arith
check_from-stays (suc k) to value result j (b ∷ rest) e h o =
    let next = check_from-stays k to value result (j + 1) rest (omega arith) (omega arith) in
    ground (arith, next)

-- Where the loop of `k` rounds accepts, it has seen the value in every round.
check_from-accepts :
    (k to value result j n : ℕ) (rest : List ℕ)
    → j + k ≡ to
    → length rest ≡ suc k
    → check_from to value result j rest ≡ position n
    → (n ≡ result) × (rest ≡ replicate k value ++ get_or rest k 0 ∷ [])
unfolding check_from
check_from-accepts k to value result j n [] e h o = absurd (omega arith)
check_from-accepts zero to value result j n (b ∷ []) e h o = (ground arith, refl)
check_from-accepts zero to value result j n (b ∷ c ∷ rest) e h o = absurd (omega arith)
check_from-accepts (suc k) to value result j n (b ∷ rest) e h o =
    let next = check_from-accepts k to value result (j + 1) n rest (omega arith) (omega arith) in
    let passed : (b ≡ value) × (check_from to value result (j + 1) rest ≡ position n) =
      ground arith in
    let seen = next passed.1 in (seen.0, ap₂ ◌∷◌ passed.0 seen.1)

get_or-drop : (n i : ℕ) (bs : List ℕ) → get_or (drop n bs) i 0 ≡ get_or bs (n + i) 0
get_or-drop zero i bs = ap (λ (k : ℕ). get_or bs k 0) (omega arith)
get_or-drop (suc n) i [] = refl
get_or-drop (suc n) i (b ∷ bs) =
    let e : suc (n + i) ≡ suc n + i = omega arith in
    get_or-drop n i bs ∙ ap (λ (k : ℕ). get_or (b ∷ bs) k 0) e

-- A counting method on a whole block of `n + 1` bytes, by the count that it reads.
module _ (filler : ℕ → ℕ) (block : List ℕ) (n : ℕ) (e : length block ≡ suc n) where
  count : ℕ
  count = get_or block n 0

  fillers_checked : Unpadded
  fillers_checked =
      check_from n (filler count) (suc n - count) (suc n - count) (drop (suc n - count) block)

  unpad_counted-count :
      unpad_counted filler block (suc n)
      ≡ (if ltb (suc n) count then decoding_error else fillers_checked)
  unfolding unpad_counted count fillers_checked
  unpad_counted-count = rw (get_elem?-get_or block n 0 (omega arith), unpad_counted) refl

  module _ (small : count ≤ suc n) where
    length-rest : length (drop (suc n - count) block) ≡ count
    length-rest = omega (arith, length-drop (suc n - count) block)

    fillers_checked-overrun : fillers_checked ≡ overrun → count ≡ 0
    unfolding fillers_checked
    fillers_checked-overrun h = elim (Bool-cases (count == 0)) [
      | inl none ↦ (==_iff count 0).0 none
      | inr more ↦
          let rounds : suc n - count + (count - 1) ≡ n = ground arith in
          let within : count - 1 ≤ length (drop (suc n - count) block) =
            omega (arith, length-rest) in
          absurd (check_from-stays (count - 1) n _ _ _ _ rounds within h)
    ]

    -- At a count of 0 the loop starts behind its end, and at the end of the block.
    overrun-fillers_checked : count ≡ 0 → fillers_checked ≡ overrun
    unfolding fillers_checked check_from
    overrun-fillers_checked h =
        let start : suc n - count ≡ suc n = omega arith in
        let behind : drop (suc n) block ≡ [] = drop_all (suc n) block (omega arith) in
        let past : (suc n == n) ≡ false = ground arith in rw (start, behind, past) refl

    fillers_checked-tail :
        (k : ℕ)
        → fillers_checked ≡ position k
        → (k < suc n)
          × (block ≡ take k block ++ (replicate (n - k) (filler (suc n - k)) ++ (suc n - k) ∷ []))
    unfolding fillers_checked count
    fillers_checked-tail k h =
        let positive : 0 < count = elim (Bool-cases (count == 0)) [
          | inl none ↦ let back = overrun-fillers_checked ((==_iff count 0).0 none) in absurd cc
          | inr more ↦ ground arith
        ] in
        let (at, seen) =
          check_from-accepts (count - 1) n _ _ _ k (drop (suc n - count) block)
            (omega (arith, small, positive)) (omega (arith, length-rest, positive)) h in
        let count_eq : count ≡ suc n - k = omega (arith, at, small) in
        let before : count - 1 ≡ n - k = omega (arith, at, small) in
        let last : get_or (drop (suc n - count) block) (count - 1) 0 ≡ suc n - k =
          get_or-drop (suc n - count) (count - 1) block
          ∙ ap (λ (i : ℕ). get_or block i 0) (omega (arith, small, positive))
          ∙ count_eq in
        (
          omega (arith, at, positive),
          sym (take-append-drop k block)
              ∙ ap (λ t. take k block ++ t)
                  (ap (λ (i : ℕ). drop i block) at
                    ∙ seen
                    ∙ ap₂ (λ u w. u ++ w ∷ []) (ap₂ (λ u w. replicate u (filler w)) before count_eq)
                        last),
        )

  counted-overrun : (unpad_counted filler block (suc n) ≡ overrun) ↔ (count ≡ 0)
  counted-overrun = elim (Bool-cases (ltb (suc n) count)) [
    | inl large ↦ rw (unpad_counted-count, large) (λ h. cc, λ h. absurd (ground arith))
    | inr small ↦
        let le : count ≤ suc n = ground arith in
        rw (unpad_counted-count, small) (fillers_checked-overrun le, overrun-fillers_checked le)
  ]

  counted-tail :
      (k : ℕ)
      → unpad_counted filler block (suc n) ≡ position k
      → (k < suc n)
        × (block ≡ take k block ++ (replicate (n - k) (filler (suc n - k)) ++ (suc n - k) ∷ []))
  counted-tail k = elim (Bool-cases (ltb (suc n) count)) [
    | inl large ↦ rw (unpad_counted-count, large) (λ h. cc)
    | inr small ↦
        let le : count ≤ suc n = ground arith in
        rw (unpad_counted-count, small) (fillers_checked-tail le k)
  ]

unpad_counted-overrun :
    (filler : ℕ → ℕ) (block : List ℕ) (n : ℕ)
    → length block ≡ suc n
    → (unpad_counted filler block (suc n) ≡ overrun) ↔ (get_elem? block n ≡ some 0)
unfolding count
unpad_counted-overrun filler block n e = rw (get_elem?-get_or block n 0 (omega arith)) (
  λ h. ap some ((counted-overrun filler block n e).0 h),
  λ h. (counted-overrun filler block n e).1 cc,
)

unpad_counted-tail :
    (filler : ℕ → ℕ) (block : List ℕ) (size n : ℕ)
    → length block ≡ size
    → unpad_counted filler block size ≡ position n
    → (n < size)
      × (block ≡ take n block ++ (replicate (size - n - 1) (filler (size - n)) ++ (size - n) ∷ []))
unfolding unpad_counted
unpad_counted-tail filler block zero n e h = cc
unpad_counted-tail filler block (suc m) n e h =
    let k : suc m - n - 1 ≡ m - n = omega arith in rw k (counted-tail filler block m e n h)

-- PKCS #7 and X9.23 accept a whole block only as their padding: behind the returned position stand
-- fillers (the count, or zeros) and at the end the count itself, which is at least 1.
pub unpad-accepts :
    (block : List ℕ) (size n : ℕ)
    → length block ≡ size
    → (unpad pkcs7 block size ≡ position n
        → (n < size)
          × (block ≡ take n block ++ (replicate (size - n - 1) (size - n) ++ (size - n) ∷ [])))
      × (unpad ansi_x923 block size ≡ position n
          → (n < size) × (block ≡ take n block ++ (replicate (size - n - 1) 0 ++ (size - n) ∷ [])))
unfolding unpad
unpad-accepts block size n e = (
  unpad_counted-tail (λ count. count) block size n e,
  unpad_counted-tail (λ count. 0) block size n e,
)

one_and_zeros_unpad-stays :
    (block : List ℕ) (n : ℕ) → n ≤ length block → one_and_zeros_unpad block n ≡ overrun → ⊥
unfolding one_and_zeros_unpad
one_and_zeros_unpad-stays block zero h = λ o. cc
one_and_zeros_unpad-stays block (suc n) h =
    rw (get_elem?-get_or block n 0 h, one_and_zeros_unpad)
      (λ o. ground (arith, one_and_zeros_unpad-stays block n (omega arith)))

-- On a whole block that is not empty, the methods that count their padding read behind the block
-- exactly when its last byte is 0, and the third method never does.
pub unpad-overrun :
    (block : List ℕ) (size : ℕ)
    → length block ≡ size
    → 0 < size
    → ((unpad pkcs7 block size ≡ overrun) ↔ (get_elem? block (size - 1) ≡ some 0))
      × ((unpad ansi_x923 block size ≡ overrun) ↔ (get_elem? block (size - 1) ≡ some 0))
      × (unpad one_and_zeros block size ≡ overrun → ⊥)
unfolding unpad
unpad-overrun block zero e h = absurd (omega arith)
unpad-overrun block (suc n) e h =
    let last : suc n - 1 ≡ n = omega arith in
    rw last (
      unpad_counted-overrun (λ count. count) block n e,
      unpad_counted-overrun (λ count. 0) block n e,
      one_and_zeros_unpad-stays block (suc n) (omega arith),
    )
