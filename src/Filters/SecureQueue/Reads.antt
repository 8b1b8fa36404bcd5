-- ===== src/Filters/SecureQueue/Reads.antt =====
-- Reading from the queue, over the bytes that its chain holds in order.
use php_botan.Base.{
  ℕ, zero, suc, ◌+◌, ◌-◌, ◌<◌, ◌≤◌, ◌≡◌, refl, sym, ap, ◌∙◌, arith, min, List, [], ◌∷◌, ◌++◌,
  append-nil, append_assoc, true, false, Bool-cases, inl, inr, take, drop, length, length-take,
  length-drop, length-append, take-append-drop, take_nil, drop_nil, drop_all, drop-append_left,
  drop-append_past, take-append_past, take-append, take-min, drop-drop, leb, ◌==◌, ==_iff,
}
use php_botan.Filters.SecureQueue.{
  SecureQueueNode, SecureQueue, node_size, node_read, node_peek, read_loop, read, skip_nodes,
  peek_loop, peek,
}
use php_botan.Filters.SecureQueue.Fifo.{held, contents, IsNode, IsQueue}

module _ (size : ℕ) (n : SecureQueueNode) (len : ℕ) (v : IsNode size n) where
  taken : List ℕ
  unfolding node_read
  taken = (node_read n len).1

  taken_lem : taken ≡ take len (held n)
  unfolding taken node_read node_size
  taken_lem =
      ap (λ (k : ℕ). take (min len k) (held n)) (sym (length-drop n.start n.buffer))
      ∙ take-min len (held n)

  node_read-held : held n ≡ taken ++ held (node_read n len).0
  unfolding taken node_read node_size
  node_read-held =
      sym (take-append-drop (min len (length n.buffer - n.start)) (held n))
      ∙ ap (λ t. taken ++ t) (drop-drop (min len (length n.buffer - n.start)) n.start n.buffer)

  node_read-IsNode : IsNode size (node_read n len).0
  unfolding node_read node_size
  node_read-IsNode = record { ordered = omega (arith, v.ordered); fits = v.fits }

node_size_lem : (n : SecureQueueNode) → node_size n ≡ length (held n)
unfolding node_size
node_size_lem n = sym (length-drop n.start n.buffer)

no_bytes : (xs : List ℕ) → length xs ≡ 0 → xs ≡ []
no_bytes [] h = refl
no_bytes (x ∷ xs) h = absurd (omega arith)

module _ (out rest whole : List ℕ) (len : ℕ) (e : whole ≡ out ++ rest) (h : length out ≤ len) where
  take_rest : out ++ take (len - length out) rest ≡ take len whole
  take_rest = sym (take-append_past len out rest h) ∙ ap (take len) (sym e)

  drop_rest : drop (len - length out) rest ≡ drop len whole
  drop_rest = sym (drop-append_past len out rest h) ∙ ap (drop len) (sym e)

nonzero : (k : ℕ) → (k == 0) ≡ false → 0 < k
nonzero k h = ground arith

-- What a read of `len` bytes should be.
abbrev pub Reads : ℕ → SecureQueue → ℕ → List ℕ × SecureQueue → Type 0
Reads size q len (out, q') =
    (out ≡ take len (contents q)) × ((contents q' ≡ drop len (contents q)) × IsQueue size q')

read_loop-Reads :
    (size fuel : ℕ) (q : SecureQueue) (len : ℕ)
    → IsQueue size q
    → (0 < len → length q < fuel)
    → Reads size q len (read_loop fuel q len)
unfolding read_loop taken
read_loop-Reads size zero q zero v h = (refl, (refl, v))
read_loop-Reads size zero q (suc len) v h = absurd (omega (arith, h (omega arith)))
read_loop-Reads size (suc fuel) [] zero v h = (refl, (refl, tt))
read_loop-Reads size (suc fuel) [] (suc len) v h = (refl, (refl, tt))
read_loop-Reads size (suc fuel) (n ∷ ns) zero (v, vs) h = (refl, (refl, (v, vs)))
read_loop-Reads size (suc fuel) (n ∷ ns) (suc len) (v, vs) h =
    let out = taken size n (suc len) v in
    let n' = (node_read n (suc len)).0 in
    let split = node_read-held size n (suc len) v in
    let sound = node_read-IsNode size n (suc len) v in
    let many : length out ≡ min (suc len) (length (held n)) =
      ap length (taken_lem size n (suc len) v) ∙ length-take (suc len) (held n) in
    let few : length out ≤ suc len = omega (arith, many) in
    let busy : (suc len == 0) ≡ false = ground arith in
    elim (Bool-cases (node_size n' == 0)) [
      | inl drained ↦
          let none_left : length (held n') ≡ 0 =
            omega (arith, node_size_lem n', (==_iff (node_size n') 0).0 drained) in
          let whole : contents (n ∷ ns) ≡ out ++ contents ns =
            ap (λ t. t ++ contents ns)
              (split ∙ ap (λ t. out ++ t) (no_bytes (held n') none_left) ∙ append-nil out) in
          let rest =
            read_loop-Reads size fuel ns (suc len - length out) vs
              (λ more. omega (arith, h (omega arith))) in
          rw (busy, drained)
            (
              ap (λ t. out ++ t) rest.0
                  ∙ take_rest out (contents ns) (contents (n ∷ ns)) (suc len) whole few,
              (
                rest.1.0 ∙ drop_rest out (contents ns) (contents (n ∷ ns)) (suc len) whole few,
                rest.1.1,
              ),
            )
      | inr left ↦
          let some_left : 0 < length (held n') =
            omega (arith, node_size_lem n', nonzero (node_size n') left) in
          let sizes : length (held n) ≡ length out + length (held n') =
            ap length split ∙ length-append out (held n') in
          let stopped : length out ≡ suc len = omega (arith, many, sizes, some_left) in
          let whole : contents (n ∷ ns) ≡ out ++ contents (n' ∷ ns) =
            ap (λ t. t ++ contents ns) split ∙ append_assoc out (held n') (contents ns) in
          let rest =
            read_loop-Reads size fuel (n' ∷ ns) (suc len - length out) (sound, vs)
              (λ more. absurd (omega (arith, stopped))) in
          rw (busy, left)
            (
              ap (λ t. out ++ t) rest.0
                  ∙ take_rest out (contents (n' ∷ ns)) (contents (n ∷ ns)) (suc len) whole few,
              (
                rest.1.0
                    ∙ drop_rest out (contents (n' ∷ ns)) (contents (n ∷ ns)) (suc len) whole few,
                rest.1.1,
              ),
            )
    ]

-- Reading takes off the head as many bytes as asked for, or all if there are fewer: it returns them in
-- order, the queue holds the rest, and every node stays within its buffer.
pub read-Reads :
    (size : ℕ) (q : SecureQueue) (len : ℕ) → IsQueue size q → Reads size q len (read q len)
unfolding read
read-Reads size q len v = read_loop-Reads size (suc (length q)) q len v (λ more. omega arith)

-- The node that `peek` begins at has the byte at the offset that is left, unless none is.
abbrev Begins : SecureQueue → ℕ → Type 0
Begins [] offset = Unit
Begins (n ∷ ns) offset = offset ≤ length (held n)

skip_nodes-drop :
    (q : SecureQueue) (offset : ℕ)
    → (drop (skip_nodes q offset).1 (contents (skip_nodes q offset).0) ≡ drop offset (contents q))
      × Begins (skip_nodes q offset).0 (skip_nodes q offset).1
unfolding skip_nodes
skip_nodes-drop [] offset = (refl, tt)
skip_nodes-drop (n ∷ ns) zero = (refl, omega arith)
skip_nodes-drop (n ∷ ns) (suc k) =
    let busy : (suc k == 0) ≡ false = ground arith in
    elim (Bool-cases (leb (node_size n) (suc k))) [
      | inl past ↦
          let next = skip_nodes-drop ns (suc k - node_size n) in
          let beyond : length (held n) ≤ suc k = leb_size (node_size_lem n) past in
          let e : suc k - node_size n ≡ suc k - length (held n) = omega (arith, node_size_lem n) in
          rw (busy, past)
            (
              next.0
                  ∙ ap (λ (i : ℕ). drop i (contents ns)) e
                  ∙ sym (drop-append_past (suc k) (held n) (contents ns) beyond),
              next.1,
            )
      | inr within ↦ rw (busy, within) (refl, under (node_size_lem n) within)
    ]
  where
    leb_size :
        node_size n ≡ length (held n) → leb (node_size n) (suc k) ≡ true → length (held n) ≤ suc k
    leb_size e h = ground arith

    under :
        node_size n ≡ length (held n) → leb (node_size n) (suc k) ≡ false → suc k ≤ length (held n)
    under e h = ground arith

node_peek_lem :
    (n : SecureQueueNode) (len offset : ℕ)
    → node_peek n len offset ≡ take len (drop offset (held n))
unfolding node_peek node_size
node_peek_lem n len offset = elim (Bool-cases (leb (node_size n) offset)) [
  | inl past ↦
      let beyond : length (held n) ≤ offset = leb_size (length-drop n.start n.buffer) past in
      rw past (sym (ap (take len) (drop_all offset (held n) beyond) ∙ take_nil len))
  | inr within ↦
      let e : length n.buffer - n.start - offset ≡ length (drop (n.start + offset) n.buffer) =
        omega (arith, length-drop (n.start + offset) n.buffer) in
      rw within (
        ap (λ (k : ℕ). take (min len k) (drop (n.start + offset) n.buffer)) e
        ∙ take-min len (drop (n.start + offset) n.buffer)
        ∙ sym (ap (take len) (drop-drop offset n.start n.buffer)))
]
  where
    leb_size :
        length (held n) ≡ length n.buffer - n.start
        → leb (length n.buffer - n.start) offset ≡ true
        → length (held n) ≤ offset
    leb_size e h = ground arith

Begins-zero : (q : SecureQueue) → Begins q 0
Begins-zero [] = tt
Begins-zero (n ∷ ns) = omega arith

peek_loop_lem :
    (q : SecureQueue) (len offset : ℕ)
    → Begins q offset
    → peek_loop q len offset ≡ take len (drop offset (contents q))
unfolding peek_loop
peek_loop_lem [] len offset h = sym (ap (take len) (drop_nil offset) ∙ take_nil len)
peek_loop_lem (n ∷ ns) zero offset h = refl
peek_loop_lem (n ∷ ns) (suc len) offset h =
    let busy : (suc len == 0) ≡ false = ground arith in
    let X = drop offset (held n) in
    let rest =
      peek_loop_lem ns (suc len - length (node_peek n (suc len) offset)) 0 (Begins-zero ns) in
    rw busy (
      ap (λ t. node_peek n (suc len) offset ++ t) rest
      ∙ ap (λ t. t ++ take (suc len - length t) (contents ns)) (node_peek_lem n (suc len) offset)
      ∙ sym (take-append (suc len) X (contents ns))
      ∙ ap (take (suc len)) (sym (drop-append_left offset (held n) (contents ns) h)))

-- Peeking returns the bytes from the offset on, as many as asked for, or fewer if the queue ends.
pub peek_lem :
    (q : SecureQueue) (len offset : ℕ) → peek q len offset ≡ take len (drop offset (contents q))
unfolding peek
peek_lem q len offset =
    let begun = skip_nodes-drop q offset in
    peek_loop_lem (skip_nodes q offset).0 len (skip_nodes q offset).1 begun.1
    ∙ ap (take len) begun.0
