-- ===== src/Filters/SecureQueue/Assign.antt =====
-- Assignment between queues, and of a queue to itself.
use php_botan.Base.{
  ℕ, ◌<◌, ◌≡◌, refl, sym, ap, ◌∙◌, [], ◌∷◌, false, Bool-cases, inl, inr, ◌==◌, ==_iff,
  if◌then◌else◌,
}
use mathlib.Core.Path.{subst}
use php_botan.Filters.SecureQueue.{SecureQueue, new_node, copy, Store, store, assign}
use php_botan.Filters.SecureQueue.Fifo.{contents, IsQueue, copy-contents}

-- The chain that the loop of an assignment reads.
abbrev assigned : ℕ → ℕ → Store → SecureQueue
assigned target source queues = if source == target then new_node ∷ [] else queues source

assign-target :
    (size target source : ℕ) (queues : Store)
    → assign size target source queues target ≡ copy size (assigned target source queues)
unfolding assign store copy
assign-target size target source queues =
    let self = (==_iff target target).1 refl in
    elim (Bool-cases (source == target)) [
      | inl one ↦ rw (self, one) refl
      | inr two ↦ rw (self, two) refl
    ]

assign-others :
    (size target source p : ℕ) (queues : Store)
    → (p == target) ≡ false
    → assign size target source queues p ≡ queues p
unfolding assign store
assign-others size target source p queues other = rw other refl

-- With buffers of one byte at least, after an assignment the target holds what the source held, but
-- nothing if it is assigned to itself; every other queue holds what it held. The nodes of the target
-- stay within their buffers.
pub assign-contents :
    (size target source p : ℕ) (queues : Store)
    → 0 < size
    → (contents (assign size target source queues p) ≡ (
        if p == target
        then (if source == target then [] else contents (queues source))
        else contents (queues p)))
      × IsQueue size (assign size target source queues target)
assign-contents size target source p queues pos =
    let (copied_bytes, sound) = copy-contents size (assigned target source queues) pos in
    (
      elim (Bool-cases (p == target)) [
        | inl here ↦ rw here (
            ap (λ (i : ℕ). contents (assign size target source queues i)) ((==_iff p target).0 here)
            ∙ ap contents (assign-target size target source queues)
            ∙ copied_bytes
            ∙ elim (Bool-cases (source == target)) [
              | inl one ↦ rw one refl
              | inr two ↦ rw two refl
            ])
        | inr other ↦ rw other (ap contents (assign-others size target source p queues other))
      ],
      subst (IsQueue size) (sym (assign-target size target source queues)) sound,
    )
