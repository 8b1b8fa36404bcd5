-- ===== src/Block/Parts.antt =====
-- The components that Luby-Rackoff and Lion are built from, by what their classes promise: a hash
-- function (hash/hash.h) and a stream cipher (stream/stream_cipher.h). And a block as two halves.
use php_botan.Base.{
  ℕ, ◌+◌, ◌≡◌, arith, List, ◌++◌, take, drop, length-append, length-take, length-drop,
  take-append_exact, drop-append_exact, All-take, All-drop, All-append,
}
use php_botan.Base.Words.{IsByte, IsBlock}

-- `digest m` is what `update(m)`, in any number of pieces, and then `final` give.
pub record HashFunction : Type 0 where
  pub output_length : ℕ
  pub digest : List ℕ → List ℕ
  pub digest-IsBlock : (m : List ℕ) → IsBlock output_length (digest m)

-- `crypt key m` is what `set_key(key)` and then `encrypt(m)` give: a key stream is added to the
-- message, so that a second call takes it away.
pub record StreamCipher : Type 0 where
  pub crypt : List ℕ → List ℕ → List ℕ
  pub crypt-IsBlock : (n : ℕ) (key m : List ℕ) → IsBlock n m → IsBlock n (crypt key m)
  pub crypt-crypt : (n : ℕ) (key m : List ℕ) → IsBlock n m → crypt key (crypt key m) ≡ m

module _ (n k : ℕ) (bs : List ℕ) (h : IsBlock (n + k) bs) where
  pub left-IsBlock : IsBlock n (take n bs)
  left-IsBlock = (omega (arith, length-take n bs), All-take IsByte n bs h.1)

  pub right-IsBlock : IsBlock k (drop n bs)
  right-IsBlock = (omega (arith, length-drop n bs), All-drop IsByte n bs h.1)

module _ (n k : ℕ) (xs ys : List ℕ) (h : IsBlock n xs) (g : IsBlock k ys) where
  pub append-IsBlock : IsBlock (n + k) (xs ++ ys)
  append-IsBlock = (omega (arith, length-append xs ys), All-append IsByte xs ys h.1 g.1)

  pub left-append : take n (xs ++ ys) ≡ xs
  left-append = take-append_exact xs ys n (omega arith)

  pub right-append : drop n (xs ++ ys) ≡ ys
  right-append = drop-append_exact xs ys n (omega arith)
