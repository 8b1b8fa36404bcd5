-- ===== src/Utils/Charset/Digits.antt =====
-- Digits and their characters.
use php_botan.Base.{true, false, leb, refl, ℕ, ◌+◌, ◌<◌, ◌≡◌, ◌↔◌, arith}
use php_botan.Base.Exceptn.{ok}
use php_botan.Utils.Charset.{is_space, char2digit, digit2char}

-- The characters of digits are those from '0' to '9', and `char2digit` gives their distance to '0'.
pub char2digit_lem : (c d : ℕ) → (char2digit c ≡ ok d) ↔ ((d < 10) × (c ≡ d + b'0'))
unfolding char2digit
char2digit_lem c d = ground arith

pub digit2char_lem : (d : ℕ) → d < 10 → digit2char d ≡ ok (d + b'0')
unfolding digit2char
digit2char_lem d h = ground arith

pub is_space_blank : is_space b' ' ≡ true
unfolding is_space
is_space_blank = refl

pub is_space_letter : (c : ℕ) → leb b'A' c ≡ true → is_space c ≡ false
unfolding is_space
is_space_letter c h = ground arith
