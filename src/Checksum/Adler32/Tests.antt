-- ===== src/Checksum/Adler32/Tests.antt =====
-- Adler-32 of concrete messages.
use php_botan.Base.{ℕ, ◌≡◌, refl, arith, List, [], ◌∷◌}
use php_botan.Base.Tables.{are_bytes_sound}
use php_botan.Checksum.Adler32.{Adler32, clear, add_data, final_result, adler_spec}
use php_botan.Checksum.Adler32.Spec.{IsReduced, sums, add_data-adler_spec}

-- "Wikipedia"
abbrev wikipedia : List ℕ
wikipedia = 0x57 ∷ 0x69 ∷ 0x6B ∷ 0x69 ∷ 0x70 ∷ 0x65 ∷ 0x64 ∷ 0x69 ∷ 0x61 ∷ []

abbrev largest : Adler32
largest = record { s1 = 65520; s2 = 65520 }

largest-IsReduced : IsReduced largest
largest-IsReduced = (omega arith, omega arith)

add_data-adler_spec_example :
    (sums (add_data largest wikipedia) ≡ adler_spec (sums largest) wikipedia)
    × IsReduced (add_data largest wikipedia)
add_data-adler_spec_example =
    add_data-adler_spec largest wikipedia largest-IsReduced (are_bytes_sound wikipedia refl)

-- The known checksum 11E60398.
final_result_run : (final_result (add_data clear wikipedia)).0 ≡ 0x11 ∷ 0xE6 ∷ 0x03 ∷ 0x98 ∷ []
unfolding final_result add_data
final_result_run = refl
