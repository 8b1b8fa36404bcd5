-- ===== src/Utils/Parsing/Addresses.antt =====
-- IPv4 addresses: what `ipv4_to_string` prints, `string_to_ipv4` reads back.
use php_botan.Base.{
  ℕ, ◌+◌, ◌*◌, ◌%◌, ◌^◌, ◌<◌, ◌≡◌, ◌≢◌, refl, ap, ◌∙◌, arith, List, [], ◌∷◌, ◌++◌, All, false,
  bit_and, bit_or, ltb,
}
use php_botan.Base.Bits.{bit_and_mask, bit_or_fields}
use php_botan.Base.Words.{IsByte, IsU32, get_byte, get_byte-IsByte}
use php_botan.Base.Exceptn.{ok, ◌>>=◌}
use php_botan.Utils.Parsing.{to_u32bit, to_string, ipv4_loop, string_to_ipv4, ipv4_to_string}
use php_botan.Utils.Parsing.Numbers.{IsDigit, to_string_lem, to_u32bit_lem}
use php_botan.Utils.Parsing.Split.{IsPart, join, split_on-join}

-- A digit is no dot.
digits-no_dot : (s : List ℕ) → All IsDigit s → All (λ c. c ≢ b'.') s
digits-no_dot [] h = tt
digits-no_dot (c ∷ s) (h, hs) = (omega arith, digits-no_dot s hs)

-- A printed byte: a part of the address, read back as the byte.
record IsOctet (b : ℕ) (s : List ℕ) : Type 0 where
  part : IsPart b'.' s
  read : to_u32bit s ≡ ok b

octet : (b : ℕ) → IsByte b → (s : List ℕ) × (to_string b 0 ≡ ok s) × IsOctet b s
octet b h =
    let (s, e, d, v, pos, len) = to_string_lem b 0 (omega arith) in
    (
      s,
      e,
      record { part = (pos, digits-no_dot s d); read = (to_u32bit_lem s b).1 (d, v, omega arith) },
    )

ipv4_loop_step :
    (ip b : ℕ) (s : List ℕ) (parts : List (List ℕ))
    → IsByte b
    → ip < 2 ^ 24
    → IsOctet b s
    → ipv4_loop ip (s ∷ parts) ≡ ipv4_loop (ip * 256 + b) parts
unfolding ipv4_loop
ipv4_loop_step ip b s parts h lt o = rw (o.read, in_range, word) refl
  where
    in_range : ltb 255 b ≡ false
    in_range = ground arith

    word : bit_or (ip * 2 ^ 8 % 2 ^ 32) (bit_and b 0xFF) ≡ ip * 256 + b
    word = rw (bit_and_mask 8 b) (
        omega (
          arith,
          bit_or_fields 8 ip (b % 2 ^ 8) (omega arith),
          ap (λ (t : ℕ). bit_or t (b % 2 ^ 8)) small,
        ))
      where
        small : ip * 2 ^ 8 % 2 ^ 32 ≡ ip * 2 ^ 8
        small = omega arith

-- The four bytes of an address, read from the left.
read_octets :
    (ip : ℕ) (s0 s1 s2 s3 : List ℕ)
    → IsU32 ip
    → IsOctet (get_byte 0 ip) s0
    → IsOctet (get_byte 1 ip) s1
    → IsOctet (get_byte 2 ip) s2
    → IsOctet (get_byte 3 ip) s3
    → ipv4_loop 0 (s0 ∷ s1 ∷ s2 ∷ s3 ∷ []) ≡ ok ip
unfolding get_byte
read_octets ip s0 s1 s2 s3 h o0 o1 o2 o3 =
    ipv4_loop_step 0 b0 s0 (s1 ∷ s2 ∷ s3 ∷ []) (omega arith) (omega arith) o0
    ∙ ipv4_loop_step (0 * 256 + b0) b1 s1 (s2 ∷ s3 ∷ []) (omega arith) (omega arith) o1
    ∙ ipv4_loop_step ((0 * 256 + b0) * 256 + b1) b2 s2 (s3 ∷ []) (omega arith) (omega arith) o2
    ∙ ipv4_loop_step (((0 * 256 + b0) * 256 + b1) * 256 + b2) b3 s3 [] (omega arith) (omega arith)
        o3
    ∙ done
  where
    b0 : ℕ
    b0 = get_byte 0 ip

    b1 : ℕ
    b1 = get_byte 1 ip

    b2 : ℕ
    b2 = get_byte 2 ip

    b3 : ℕ
    b3 = get_byte 3 ip

    sum : (((0 * 256 + b0) * 256 + b1) * 256 + b2) * 256 + b3 ≡ ip
    sum = omega arith

    done : ipv4_loop ((((0 * 256 + b0) * 256 + b1) * 256 + b2) * 256 + b3) [] ≡ ok ip
    done = unfold ipv4_loop in ap ok sum

-- Parsing a printed address gives the address, for every 32-bit address.
pub string_to_ipv4-ipv4_to_string :
    (ip : ℕ) → IsU32 ip → (ipv4_to_string ip >>= string_to_ipv4) ≡ ok ip
unfolding ipv4_to_string
string_to_ipv4-ipv4_to_string ip h =
    let (s0, e0, o0) = octet (get_byte 0 ip) (get_byte-IsByte 0 ip) in
    let (s1, e1, o1) = octet (get_byte 1 ip) (get_byte-IsByte 1 ip) in
    let (s2, e2, o2) = octet (get_byte 2 ip) (get_byte-IsByte 2 ip) in
    let (s3, e3, o3) = octet (get_byte 3 ip) (get_byte-IsByte 3 ip) in
    rw (e0, e1, e2, e3)
      (parts_read s0 s1 s2 s3 o0 o1 o2 o3 ∙ read_octets ip s0 s1 s2 s3 h o0 o1 o2 o3)
  where
    parts_read :
        (s0 s1 s2 s3 : List ℕ)
        → IsOctet (get_byte 0 ip) s0
        → IsOctet (get_byte 1 ip) s1
        → IsOctet (get_byte 2 ip) s2
        → IsOctet (get_byte 3 ip) s3
        → string_to_ipv4 (s0 ++ (b'.' ∷ (s1 ++ (b'.' ∷ (s2 ++ (b'.' ∷ s3))))))
          ≡ ipv4_loop 0 (s0 ∷ s1 ∷ s2 ∷ s3 ∷ [])
    parts_read s0 s1 s2 s3 o0 o1 o2 o3 =
        unfold string_to_ipv4 join in
        rw
          (split_on-join b'.' s0 (s1 ∷ s2 ∷ s3 ∷ []) (o0.part, (o1.part, (o2.part, (o3.part, tt)))))
          refl
