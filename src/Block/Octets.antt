-- ===== src/Block/Octets.antt =====
-- A block of eight bytes as two big-endian words.
use php_botan.Base.{ℕ, zero, suc, ◌≡◌, refl, ap₂, arith, List, [], ◌∷◌, ◌++◌, All, get_or}
pub use php_botan.Base.Words.{IsBlock}
use php_botan.Base.Words.{
  IsByte, IsU32, load_be, store_be, store_be-IsByte, load_be-IsU32, make_u32bit-get_byte,
  store_be-make_u32bit,
}

get_or-IsByte : (bs : List ℕ) → All IsByte bs → (i : ℕ) → IsByte (get_or bs i 0)
get_or-IsByte [] h i = omega arith
get_or-IsByte (b ∷ bs) h zero = h.0
get_or-IsByte (b ∷ bs) h (suc i) = get_or-IsByte bs h.1 i

pub load_be_of_block : (bs : List ℕ) (off n : ℕ) → IsBlock n bs → IsU32 (load_be bs off)
load_be_of_block bs off n h = load_be-IsU32 bs off (get_or-IsByte bs h.1)

-- `store_be(out, L, R)`.
abbrev pub store_pair : ℕ → ℕ → List ℕ
store_pair l r = store_be l ++ store_be r

module _ (l r : ℕ) where
  pub store_pair-IsBlock : IsBlock 8 (store_pair l r)
  unfolding store_be
  store_pair-IsBlock = (refl, omega (arith, store_be-IsByte l, store_be-IsByte r))

  pub load_be-store_pair_left : IsU32 l → load_be (store_pair l r) 0 ≡ l
  unfolding load_be store_be
  load_be-store_pair_left h = make_u32bit-get_byte l h

  pub load_be-store_pair_right : IsU32 r → load_be (store_pair l r) 1 ≡ r
  unfolding load_be store_be
  load_be-store_pair_right h = make_u32bit-get_byte r h

pub store_pair-load_be :
    (bs : List ℕ) → IsBlock 8 bs → store_pair (load_be bs 0) (load_be bs 1) ≡ bs
unfolding load_be
store_pair-load_be (a ∷ b ∷ c ∷ d ∷ e ∷ f ∷ g ∷ h ∷ [])
      (n, (pa, (pb, (pc, (pd, (pe, (pf, (pg, (ph, u))))))))) =
    ap₂ ◌++◌ (store_be-make_u32bit a b c d pa pb pc pd) (store_be-make_u32bit e f g h pe pf pg ph)
store_pair-load_be bs (n, p) = absurd (omega arith)
