-- ===== src/Utils/Charset.antt =====
-- utils/charset.cpp. A string is the list of its bytes.
pub mod Transcode
pub mod Digits
use php_botan.Base.{
  ℕ, ◌+◌, ◌-◌, ◌*◌, ◌/◌, ◌^◌, List, [], ◌∷◌, Bool, true, false, ◌&&◌, ◌||◌, bit_and, bit_or, leb,
  ◌==◌, if◌then◌else◌,
}
use php_botan.Base.Words.{u8}
use php_botan.Base.Exceptn.{Result, ok, throw, ◌>>=◌, decoding_error, invalid_argument}

pub data CharacterSet : Type 0 where
  local_charset ucs2_charset utf8_charset latin1_charset : CharacterSet

-- `out += c` before what the rest of the loop appends.
abbrev pub prepend : ℕ → Result (List ℕ) → Result (List ℕ)
prepend c r = r >>= λ s. ok (c ∷ s)

-- The odd size is found before the loop.
pub ucs2_loop : List ℕ → Result (List ℕ)
ucs2_loop [] = ok []
ucs2_loop (c1 ∷ []) = throw decoding_error
ucs2_loop (c1 ∷ c2 ∷ rest) =
    let more = prepend c2 (ucs2_loop rest) in if c1 == 0 then more else throw decoding_error

is_odd : List ℕ → Bool
is_odd [] = false
is_odd (a ∷ []) = true
is_odd (a ∷ b ∷ s) = is_odd s

unfoldable pub ucs2_to_latin1 : List ℕ → Result (List ℕ)
unfolding ucs2_loop is_odd
ucs2_to_latin1 ucs2 = if is_odd ucs2 then throw decoding_error else ucs2_loop ucs2

-- `((c1 & 0x07) << 6) | (c2 & 0x3F)`, as a byte.
iso_char : ℕ → ℕ → ℕ
iso_char c1 c2 = u8 (bit_or (bit_and c1 0x07 * 2 ^ 6) (bit_and c2 0x3F))

unfoldable pub utf8_to_latin1 : List ℕ → Result (List ℕ)
unfolding iso_char
utf8_to_latin1 [] = ok []
utf8_to_latin1 (c1 ∷ []) = if leb c1 0x7F then ok (c1 ∷ []) else throw decoding_error
utf8_to_latin1 (c1 ∷ c2 ∷ rest) =
    let one = prepend c1 (utf8_to_latin1 (c2 ∷ rest)) in
    let two = prepend (iso_char c1 c2) (utf8_to_latin1 rest) in
    if leb c1 0x7F
    then one
    else if leb 0xC0 c1 && leb c1 0xC7
    then (if leb (iso_char c1 c2) 0x7F then throw decoding_error else two)
    else throw decoding_error

unfoldable pub latin1_to_utf8 : List ℕ → List ℕ
latin1_to_utf8 [] = []
latin1_to_utf8 (c ∷ rest) =
    let one = c ∷ latin1_to_utf8 rest in
    let two = bit_or 0xC0 (c / 2 ^ 6) ∷ bit_or 0x80 (bit_and c 0x3F) ∷ latin1_to_utf8 rest in
    if leb c 0x7F then one else two

-- LOCAL_CHARSET stands for LATIN1_CHARSET.
pub resolve : CharacterSet → CharacterSet
resolve local_charset = latin1_charset
resolve ucs2_charset = ucs2_charset
resolve utf8_charset = utf8_charset
resolve latin1_charset = latin1_charset

transcode_resolved : List ℕ → CharacterSet → CharacterSet → Result (List ℕ)
transcode_resolved str utf8_charset latin1_charset = ok (latin1_to_utf8 str)
transcode_resolved str latin1_charset utf8_charset = utf8_to_latin1 str
transcode_resolved str latin1_charset ucs2_charset = ucs2_to_latin1 str
transcode_resolved str latin1_charset latin1_charset = ok str
transcode_resolved str utf8_charset utf8_charset = ok str
transcode_resolved str ucs2_charset ucs2_charset = ok str
transcode_resolved str _ _ = throw invalid_argument

-- `transcode(str, to, from)`
unfoldable pub transcode : List ℕ → CharacterSet → CharacterSet → Result (List ℕ)
unfolding transcode_resolved resolve
transcode str to from = transcode_resolved str (resolve to) (resolve from)

unfoldable pub is_digit : ℕ → Bool
is_digit c =
    c == b'0'
    || c == b'1'
    || c == b'2'
    || c == b'3'
    || c == b'4'
    || c == b'5'
    || c == b'6'
    || c == b'7'
    || c == b'8'
    || c == b'9'

unfoldable pub is_space : ℕ → Bool
is_space c = c == b' ' || c == 0x09 || c == 0x0A || c == 0x0D

unfoldable pub char2digit : ℕ → Result ℕ
char2digit c =
    if c == b'0'
    then ok 0
    else if c == b'1'
    then ok 1
    else if c == b'2'
    then ok 2
    else if c == b'3'
    then ok 3
    else if c == b'4'
    then ok 4
    else if c == b'5'
    then ok 5
    else if c == b'6'
    then ok 6
    else if c == b'7'
    then ok 7
    else if c == b'8'
    then ok 8
    else if c == b'9'
    then ok 9
    else throw invalid_argument

unfoldable pub digit2char : ℕ → Result ℕ
digit2char b =
    if b == 0
    then ok b'0'
    else if b == 1
    then ok b'1'
    else if b == 2
    then ok b'2'
    else if b == 3
    then ok b'3'
    else if b == 4
    then ok b'4'
    else if b == 5
    then ok b'5'
    else if b == 6
    then ok b'6'
    else if b == 7
    then ok b'7'
    else if b == 8
    then ok b'8'
    else if b == 9
    then ok b'9'
    else throw invalid_argument

-- `caseless_cmp` over the C library's `tolower`, which the locale determines.
unfoldable pub caseless_cmp : (ℕ → ℕ) → ℕ → ℕ → Bool
caseless_cmp tolower a b = tolower a == tolower b
