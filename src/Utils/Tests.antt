-- ===== src/Utils/Tests.antt =====
-- Conversions, numbers, splitting and addresses at concrete texts.
use php_botan.Base.{ℕ, ◌+◌, ◌<◌, ◌≤◌, ◌≡◌, ◌↔◌, refl, arith, List, [], ◌∷◌, length, All}
use php_botan.Base.Tables.{are_bytes_sound}
use php_botan.Base.Words.{IsU32}
use php_botan.Base.Exceptn.{ok, ◌>>=◌}
use php_botan.Utils.Charset.{ucs2_to_latin1, utf8_to_latin1, latin1_to_utf8}
use php_botan.Utils.Charset.Transcode.{
  utf8_to_latin1-latin1_to_utf8, utf8_to_latin1_wraps, ucs2_to_latin1_lem, widen,
}
use php_botan.Utils.Parsing.{to_u32bit, to_string, split_on, string_to_ipv4, ipv4_to_string}
use php_botan.Utils.Parsing.Numbers.{IsDigit, value, to_u32bit_lem, to_string_lem}
use php_botan.Utils.Parsing.Split.{join, split_on-join}
use php_botan.Utils.Parsing.Addresses.{string_to_ipv4-ipv4_to_string}

-- "fuß" in Latin-1.
abbrev latin : List ℕ
latin = 0x66 ∷ 0x75 ∷ 0xDF ∷ []

utf8_to_latin1-latin1_to_utf8_example : utf8_to_latin1 (latin1_to_utf8 latin) ≡ ok latin
utf8_to_latin1-latin1_to_utf8_example =
    utf8_to_latin1-latin1_to_utf8 latin (are_bytes_sound latin refl)

utf8_to_latin1_wraps_example :
    utf8_to_latin1 ((0xC2 + 4) ∷ 0xA0 ∷ []) ≡ utf8_to_latin1 (0xC2 ∷ 0xA0 ∷ [])
utf8_to_latin1_wraps_example = utf8_to_latin1_wraps 0xC2 0xA0 [] (omega arith) (omega arith)

ucs2_to_latin1_lem_example :
    (ucs2_to_latin1 (0 ∷ 0x66 ∷ []) ≡ ok (0x66 ∷ [])) ↔ ((0 ∷ 0x66 ∷ []) ≡ widen (0x66 ∷ []))
ucs2_to_latin1_lem_example = ucs2_to_latin1_lem (0 ∷ 0x66 ∷ []) (0x66 ∷ [])

-- "4294967296", one too large.
abbrev two_to_32 : List ℕ
two_to_32 = 0x34 ∷ 0x32 ∷ 0x39 ∷ 0x34 ∷ 0x39 ∷ 0x36 ∷ 0x37 ∷ 0x32 ∷ 0x39 ∷ 0x36 ∷ []

to_u32bit_lem_example :
    (to_u32bit two_to_32 ≡ ok 0) ↔ ((All IsDigit two_to_32) × (value 0 two_to_32 ≡ 0) × IsU32 0)
to_u32bit_lem_example = to_u32bit_lem two_to_32 0

to_string_lem_example :
    (s : List ℕ) × (to_string 2011 6 ≡ ok s)
    × All IsDigit s
    × (value 0 s ≡ 2011)
    × (0 < length s)
    × (6 ≤ length s)
to_string_lem_example = to_string_lem 2011 6 (omega arith)

-- "ab/c", by parts.
split_on-join_example :
    split_on (join 0x2F ((0x61 ∷ 0x62 ∷ []) ∷ (0x63 ∷ []) ∷ [])) 0x2F
    ≡ ok ((0x61 ∷ 0x62 ∷ []) ∷ (0x63 ∷ []) ∷ [])
split_on-join_example = split_on-join 0x2F (0x61 ∷ 0x62 ∷ []) ((0x63 ∷ []) ∷ []) (
  (omega arith, ((λ e. omega arith), ((λ e. omega arith), tt))),
  ((omega arith, ((λ e. omega arith), tt)), tt),
)

-- 192.168.0.1
string_to_ipv4-ipv4_to_string_example :
    (ipv4_to_string 0xC0A80001 >>= string_to_ipv4) ≡ ok 0xC0A80001
string_to_ipv4-ipv4_to_string_example = string_to_ipv4-ipv4_to_string 0xC0A80001 (omega arith)
