-- ===== src/Checksum/Crc32/Tests.antt =====
-- CRC-32 of concrete messages.
use php_botan.Base.{ℕ, ◌≡◌, refl, arith, List, [], ◌∷◌}
use php_botan.Base.Tables.{are_bytes_sound}
use php_botan.Checksum.Crc32.{initial, add_data, final_result}
use php_botan.Checksum.Crc32.Spec.{crc_spec, add_data-crc_spec}

-- "123456789"
abbrev nine_digits : List ℕ
nine_digits = 0x31 ∷ 0x32 ∷ 0x33 ∷ 0x34 ∷ 0x35 ∷ 0x36 ∷ 0x37 ∷ 0x38 ∷ 0x39 ∷ []

add_data-crc_spec_example : add_data initial nine_digits ≡ crc_spec initial nine_digits
add_data-crc_spec_example =
    add_data-crc_spec initial nine_digits (omega arith) (are_bytes_sound nine_digits refl)

-- The known checksum CBF43926.
final_result_check :
    (final_result (add_data initial nine_digits)).0 ≡ 0xCB ∷ 0xF4 ∷ 0x39 ∷ 0x26 ∷ []
unfolding final_result add_data php_botan.Base.Words.store_be php_botan.Checksum.Unrolled.add_rounds
    php_botan.Base.Words.shr32
final_result_check = refl
