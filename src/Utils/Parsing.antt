-- ===== src/Utils/Parsing.antt =====
-- utils/parsing.cpp. A string is the list of its bytes, a character the number of its byte.
pub mod Numbers
pub mod Split
pub mod Addresses
use php_botan.Base.{
  Option, none, some, ℕ, zero, suc, ◌+◌, ◌-◌, ◌*◌, ◌/◌, ◌%◌, ◌^◌, List, [], ◌∷◌, ◌++◌, Bool, true,
  false, ◌&&◌, ◌||◌, not, length, replicate, bit_and, bit_or, ltb, leb, ◌==◌, if◌then◌else◌,
}
use php_botan.Base.Words.{u32, get_byte}
use php_botan.Base.Exceptn.{
  Result, ok, throw, ◌>>=◌, decoding_error, format_error, invalid_oid, invalid_algorithm_name,
}
use php_botan.Utils.Charset.{is_digit, is_space, char2digit, digit2char}

-- The test on OVERFLOW_MARK, before a digit is added.
overflows : ℕ → ℕ → Bool
overflows n digit = ltb (0xFFFFFFFF / 10) n || n == 0xFFFFFFFF / 10 && ltb 5 digit

unfoldable pub to_u32_loop : ℕ → List ℕ → Result ℕ
unfolding overflows
to_u32_loop n [] = ok n
to_u32_loop n (c ∷ rest) = char2digit c >>= λ digit.
    let more = to_u32_loop (u32 (u32 (n * 10) + digit)) rest in
    if overflows n digit then throw decoding_error else more

unfoldable pub to_u32bit : List ℕ → Result ℕ
unfolding to_u32_loop
to_u32bit number = to_u32_loop 0 number

-- `while(n > 0) { lenstr = digit2char(n % 10) + lenstr; n /= 10; }`, with fuel.
unfoldable pub digits_loop : ℕ → ℕ → List ℕ → Result (List ℕ)
digits_loop zero n lenstr = ok lenstr
digits_loop (suc fuel) n lenstr = elim (ltb 0 n) [
  | true ↦ digit2char (n % 10) >>= λ c. digits_loop fuel (n / 10) (c ∷ lenstr)
  | false ↦ ok lenstr
]

-- A 64-bit number has at most 20 digits.
unfoldable pub to_string : ℕ → ℕ → Result (List ℕ)
unfolding digits_loop
to_string n min_len = (if n == 0 then ok (b'0' ∷ []) else digits_loop 20 n []) >>= λ lenstr.
    ok (replicate (min_len - length lenstr) b'0' ++ lenstr)

-- The scale of a suffix; `none` is the source's last branch.
suffix_scale : ℕ → Option ℕ
suffix_scale suffix =
    if is_digit suffix
    then some 1
    else if suffix == b's'
    then some 1
    else if suffix == b'm'
    then some 60
    else if suffix == b'h'
    then some (60 * 60)
    else if suffix == b'd'
    then some (24 * 60 * 60)
    else if suffix == b'y'
    then some (365 * 24 * 60 * 60)
    else none

-- The text before the last character, and that character.
split_last : ℕ → List ℕ → List ℕ × ℕ
split_last c [] = ([], c)
split_last c (d ∷ rest) = let (value, suffix) = split_last d rest in (c ∷ value, suffix)

timespec_of : List ℕ × ℕ → Result ℕ
unfolding suffix_scale
timespec_of (value, suffix) = elim (suffix_scale suffix) [
  | none ↦ throw decoding_error
  | some scale ↦ to_u32bit (if is_digit suffix then value ++ suffix ∷ [] else value) >>= λ n.
      ok (u32 (scale * n))
]

unfoldable pub timespec_to_u32bit : List ℕ → Result ℕ
unfolding timespec_of split_last
timespec_to_u32bit [] = ok 0
timespec_to_u32bit (c ∷ rest) = timespec_of (split_last c rest)

-- `if(substr != "") elems.push_back(substr);`
unfoldable pub push_nonempty : List (List ℕ) → List ℕ → List (List ℕ)
push_nonempty elems [] = elems
push_nonempty elems (a ∷ s) = elems ++ (a ∷ s) ∷ []

-- The loop of `split_on`, over `elems` and `substr`.
unfoldable pub split_loop : ℕ → List (List ℕ) → List ℕ → List ℕ → List (List ℕ) × List ℕ
unfolding push_nonempty
split_loop delim elems substr [] = (elems, substr)
split_loop delim elems substr (c ∷ rest) =
    let cut = split_loop delim (push_nonempty elems substr) [] rest in
    let grow = split_loop delim elems (substr ++ c ∷ []) rest in if c == delim then cut else grow

unfoldable pub split_end : List (List ℕ) × List ℕ → Result (List (List ℕ))
split_end (elems, []) = throw format_error
split_end (elems, a ∷ s) = ok (elems ++ (a ∷ s) ∷ [])

unfoldable pub split_on : List ℕ → ℕ → Result (List (List ℕ))
unfolding split_end split_loop
split_on [] delim = ok []
split_on (c ∷ rest) delim = split_end (split_loop delim [] [] (c ∷ rest))

-- What `parse_asn1_oid` does at a dot and at the end: `substring` is read as a number.
unfoldable pub oid_element : List ℕ → Result ℕ
oid_element [] = throw invalid_oid
oid_element (c ∷ rest) = to_u32bit (c ∷ rest)

unfoldable pub oid_loop : List ℕ → List ℕ → List ℕ → Result (List ℕ)
unfolding oid_element
oid_loop oid_elems substring [] = oid_element substring >>= λ n. ok (oid_elems ++ n ∷ [])
oid_loop oid_elems substring (c ∷ rest) =
    let cut = oid_element substring >>= λ n. oid_loop (oid_elems ++ n ∷ []) [] rest in
    let grow = oid_loop oid_elems (substring ++ c ∷ []) rest in if c == b'.' then cut else grow

unfoldable pub parse_asn1_oid : List ℕ → Result (List ℕ)
unfolding oid_loop
parse_asn1_oid oid = oid_loop [] [] oid >>= λ oid_elems.
    if ltb (length oid_elems) 2 then throw invalid_oid else ok oid_elems

unfoldable pub ipv4_loop : ℕ → List (List ℕ) → Result ℕ
ipv4_loop ip [] = ok ip
ipv4_loop ip (part ∷ parts) = to_u32bit part >>= λ octet.
    let more = ipv4_loop (bit_or (u32 (ip * 2 ^ 8)) (bit_and octet 0xFF)) parts in
    if ltb 255 octet then throw decoding_error else more

unfoldable pub string_to_ipv4 : List ℕ → Result ℕ
unfolding ipv4_loop
string_to_ipv4 str = split_on str b'.' >>= λ parts.
    if not (length parts == 4) then throw decoding_error else ipv4_loop 0 parts

unfoldable pub ipv4_to_string : ℕ → Result (List ℕ)
ipv4_to_string ip = to_string (get_byte 0 ip) 0 >>= λ s0. to_string (get_byte 1 ip) 0 >>= λ s1.
    to_string (get_byte 2 ip) 0 >>= λ s2.
    to_string (get_byte 3 ip) 0 >>= λ s3. ok (s0 ++ (b'.' ∷ (s1 ++ (b'.' ∷ (s2 ++ (b'.' ∷ s3))))))
