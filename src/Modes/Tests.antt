-- ===== src/Modes/Tests.antt =====
-- The padding methods on concrete blocks.
use php_botan.Base.{
  ℕ, ◌-◌, ◌<◌, ◌≡◌, ◌↔◌, refl, arith, List, [], ◌∷◌, ◌++◌, take, replicate, get_elem?, some,
}
use php_botan.Modes.Padding.{
  pkcs7, ansi_x923, one_and_zeros, unpad, valid_blocksize, position, overrun,
}
use php_botan.Modes.Padding.RoundTrip.{padded, unpad-padded}
use php_botan.Modes.Padding.Exact.{unpad-overrun, unpad-accepts}

abbrev text : List ℕ
text = 0x61 ∷ 0x62 ∷ 0x63 ∷ []

abbrev old_buffer : List ℕ
old_buffer = replicate 8 0xAA

unpad-padded_example : unpad ansi_x923 (padded ansi_x923 8 text old_buffer) 8 ≡ position 3
unfolding valid_blocksize
unpad-padded_example = unpad-padded ansi_x923 8 text old_buffer refl (omega arith)

abbrev padded_block : List ℕ
padded_block = 0x61 ∷ 0x62 ∷ 0x63 ∷ 0x01 ∷ 4 ∷ 4 ∷ 4 ∷ 4 ∷ []

unpad-accepts_example :
    (unpad pkcs7 padded_block 8 ≡ position 4
      → (4 < 8)
        × (padded_block ≡ take 4 padded_block ++ (replicate (8 - 4 - 1) (8 - 4) ++ (8 - 4) ∷ [])))
    × (unpad ansi_x923 padded_block 8 ≡ position 4
        → (4 < 8)
          × (padded_block ≡ take 4 padded_block ++ (replicate (8 - 4 - 1) 0 ++ (8 - 4) ∷ [])))
unpad-accepts_example = unpad-accepts padded_block 8 4 refl

abbrev zero_block : List ℕ
zero_block = 0x61 ∷ 0x62 ∷ 0x63 ∷ 0 ∷ []

unpad-overrun_example :
    ((unpad pkcs7 zero_block 4 ≡ overrun) ↔ (get_elem? zero_block (4 - 1) ≡ some 0))
    × ((unpad ansi_x923 zero_block 4 ≡ overrun) ↔ (get_elem? zero_block (4 - 1) ≡ some 0))
    × (unpad one_and_zeros zero_block 4 ≡ overrun → ⊥)
unpad-overrun_example = unpad-overrun zero_block 4 refl (omega arith)
