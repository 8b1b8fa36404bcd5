-- ===== src/Base/XorBufTests.antt =====
-- `xor_buf` on concrete buffers.
use php_botan.Base.{
  ℕ, ◌≡◌, refl, List, [], ◌∷◌, some, none, take, replicate, length, leb, ◌&&◌, if◌then◌else◌,
}
use php_botan.Base.XorBuf.{xor_checked, xor_bytes}
use php_botan.Base.XorBuf.Exact.{xor_checked_lem}

abbrev counted : List ℕ
counted = 1 ∷ 2 ∷ 3 ∷ 4 ∷ 5 ∷ 6 ∷ 7 ∷ 8 ∷ 9 ∷ 10 ∷ []

abbrev mask : List ℕ
mask = replicate 10 0x55

xor_checked_lem_example : xor_checked counted mask 9 ≡ (
    if leb 9 (length counted) && leb 9 (length mask)
    then some (xor_bytes (take 9 counted) (take 9 mask))
    else none)
xor_checked_lem_example = xor_checked_lem counted mask 9

-- A buffer that is too short is read behind its end.
overrun_run : xor_checked counted mask 11 ≡ none
unfolding xor_checked
overrun_run = refl
