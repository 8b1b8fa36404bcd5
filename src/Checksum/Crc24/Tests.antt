-- ===== src/Checksum/Crc24/Tests.antt =====
-- CRC-24 of concrete messages.
use php_botan.Base.{ℕ, ◌≡◌, refl, List, [], ◌∷◌, ◌++◌, replicate}
use php_botan.Checksum.Crc24.{initial, add_data, final_result}

-- "123456789"
abbrev digit_bytes : List ℕ
digit_bytes = 0x31 ∷ 0x32 ∷ 0x33 ∷ 0x34 ∷ 0x35 ∷ 0x36 ∷ 0x37 ∷ 0x38 ∷ 0x39 ∷ []

-- The known checksum 21CF02.
final_result_value : (final_result (add_data initial digit_bytes)).0 ≡ 0x21 ∷ 0xCF ∷ 0x02 ∷ []
unfolding final_result add_data php_botan.Base.Words.get_byte php_botan.Checksum.Unrolled.add_rounds
    php_botan.Base.Words.shr32 php_botan.Base.Words.shl32
final_result_value = refl
