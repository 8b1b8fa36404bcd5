-- ===== src/Filters/SecureQueue/Fifo.antt =====
-- Writing to the queue, over the bytes that its chain holds in order.
use php_botan.Base.{
  ℕ, zero, suc, ◌+◌, ◌-◌, ◌<◌, ◌≤◌, ◌≡◌, ◌↔◌, refl, sym, ap, ap₂, ◌∙◌, arith, min, List, [], ◌∷◌,
  ◌++◌, append-nil, append_assoc, true, Bool-cases, inl, inr, take, drop, length, length-take,
  length-drop, length-append, take-append-drop, take_all, drop-append_left, ◌==◌, ==_iff, All,
}
use php_botan.Filters.SecureQueue.{
  SecureQueueNode, SecureQueue, new_node, node_size, node_write, fill, write, queue_size,
  copy_nodes, copy, end_of_data,
}

-- What a node holds, and what the queue holds.
abbrev pub held : SecureQueueNode → List ℕ
held n = drop n.start n.buffer

abbrev pub contents : SecureQueue → List ℕ
contents [] = []
contents (n ∷ ns) = held n ++ contents ns

-- A node's `start` is at most its `end`, and that is at most the size of its buffer.
pub record IsNode (size : ℕ) (n : SecureQueueNode) : Type 0 where
  pub ordered : n.start ≤ length n.buffer
  pub fits : length n.buffer ≤ size

abbrev pub IsQueue : ℕ → SecureQueue → Type 0
IsQueue size q = All (IsNode size) q

pub new_node-IsNode : (size : ℕ) → IsNode size new_node
new_node-IsNode size = record { ordered = omega arith; fits = omega arith }

module _ (size : ℕ) (n : SecureQueueNode) (input : List ℕ) (v : IsNode size n) where
  copied : ℕ
  copied = min (length input) (size - length n.buffer)

  node_write-held : held (node_write size n input).0 ≡ held n ++ take copied input
  unfolding node_write copied
  node_write-held = drop-append_left n.start n.buffer (take copied input) v.ordered

  node_write-IsNode : IsNode size (node_write size n input).0
  unfolding node_write copied
  node_write-IsNode = record {
    ordered = omega (arith, v.ordered, grown);
    fits = omega (arith, v.fits, grown, length-take copied input);
  }
    where
      grown :
          length (n.buffer ++ take (min (length input) (size - length n.buffer)) input)
          ≡ length n.buffer + length (take (min (length input) (size - length n.buffer)) input)
      grown = length-append n.buffer (take copied input)

-- Writing fills the tail and then new nodes, in order.
fill-contents :
    (size fuel : ℕ) (tail : SecureQueueNode) (input : List ℕ)
    → 0 < size
    → IsNode size tail
    → length input < fuel + (1 - length tail.buffer)
    → (contents (fill size fuel tail input) ≡ held tail ++ input)
      × IsQueue size (fill size fuel tail input)
unfolding fill copied node_write
fill-contents size zero tail [] pos v h = (refl, (v, tt))
fill-contents size zero tail (b ∷ input) pos v h = absurd (omega arith)
fill-contents size (suc fuel) tail [] pos v h = (refl, (v, tt))
fill-contents size (suc fuel) tail (b ∷ input) pos v h =
    let n = copied size tail (b ∷ input) v in
    let rest = drop n (b ∷ input) in
    let stored = node_write-held size tail (b ∷ input) v in
    let sound = node_write-IsNode size tail (b ∷ input) v in
    let left = length-drop n (b ∷ input) in
    elim (Bool-cases (length rest == 0)) [
      | inl done ↦
          let none_left : length rest ≡ 0 = (==_iff (length rest) 0).0 done in
          rw done (
            ap (λ t. t ++ []) stored
                ∙ append-nil (held tail ++ take n (b ∷ input))
                ∙ ap (λ t. held tail ++ t) (take_all n (b ∷ input) (omega arith)),
            (sound, tt),
          )
      | inr more ↦
          let rec =
            fill-contents size fuel new_node rest pos (new_node-IsNode size) (omega arith) in
          rw more (
            ap₂ ◌++◌ stored rec.0
                ∙ append_assoc (held tail) (take n (b ∷ input)) rest
                ∙ ap (λ t. held tail ++ t) (take-append-drop n (b ∷ input)),
            (sound, rec.1),
          )
    ]

-- With buffers of one byte at least, writing adds the bytes behind what the queue holds, in order,
-- and every node stays within its buffer.
pub write-contents :
    (size : ℕ) (q : SecureQueue) (input : List ℕ)
    → 0 < size
    → IsQueue size q
    → (contents (write size q input) ≡ contents q ++ input) × IsQueue size (write size q input)
unfolding write
write-contents size [] input pos v =
    fill-contents size (suc (length input)) new_node input pos (new_node-IsNode size) (omega arith)
write-contents size (n ∷ []) input pos (v, _) =
    let filled = fill-contents size (suc (length input)) n input pos v (omega arith) in
    rw (append-nil (held n)) filled
write-contents size (n ∷ m ∷ ns) input pos (v, vs) =
    let rest = write-contents size (m ∷ ns) input pos vs in
    (
      ap (λ t. held n ++ t) rest.0 ∙ sym (append_assoc (held n) (contents (m ∷ ns)) input),
      (v, rest.1),
    )

-- The size is the count of the bytes that the queue holds.
pub queue_size_lem : (q : SecureQueue) → queue_size q ≡ length (contents q)
unfolding queue_size node_size
queue_size_lem [] = refl
queue_size_lem (n ∷ ns) =
    let rest = queue_size_lem ns in
    let here = length-drop n.start n.buffer in omega (arith, length-append (held n) (contents ns))

copy_nodes-contents :
    (size : ℕ) (q input : SecureQueue)
    → 0 < size
    → IsQueue size q
    → (contents (copy_nodes size q input) ≡ contents q ++ contents input)
      × IsQueue size (copy_nodes size q input)
unfolding copy_nodes
copy_nodes-contents size q [] pos v = (sym (append-nil (contents q)), v)
copy_nodes-contents size q (n ∷ ns) pos v =
    let written = write-contents size q (held n) pos v in
    let rest = copy_nodes-contents size (write size q (held n)) ns pos written.1 in
    (
      rest.0
          ∙ ap (λ t. t ++ contents ns) written.0
          ∙ append_assoc (contents q) (held n) (contents ns),
      rest.1,
    )

-- With buffers of one byte at least, the copy of any queue holds what the queue holds, and every
-- node of the copy stays within its buffer.
pub copy-contents :
    (size : ℕ) (q : SecureQueue)
    → 0 < size
    → (contents (copy size q) ≡ contents q) × IsQueue size (copy size q)
unfolding copy
copy-contents size q pos = copy_nodes-contents size (new_node ∷ []) q pos (new_node-IsNode size, tt)

no_bytes : (xs : List ℕ) → length xs ≡ 0 → xs ≡ []
no_bytes [] h = refl
no_bytes (x ∷ xs) h = absurd (omega arith)

-- The queue is at its end exactly where it holds nothing, whatever nodes its chain has.
pub end_of_data-contents : (q : SecureQueue) → (end_of_data q ≡ true) ↔ (contents q ≡ [])
unfolding end_of_data
end_of_data-contents q = (
  λ h. no_bytes (contents q) (omega (arith, queue_size_lem q, (==_iff (queue_size q) 0).0 h)),
  λ e. (==_iff (queue_size q) 0).1 (queue_size_lem q ∙ ap length e),
)
