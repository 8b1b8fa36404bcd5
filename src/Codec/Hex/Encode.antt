-- ===== src/Codec/Hex/Encode.antt =====
-- What the encoder sends: the characters of every byte written, and line breaks among them.
use php_botan.Base.{
  ℕ, zero, suc, ◌+◌, ◌-◌, ◌*◌, ◌/◌, ◌<◌, ◌≤◌, ◌≡◌, ◌⊎◌, inl, inr, refl, sym, ap, ap₂, ◌∙◌, arith,
  min, List, [], ◌∷◌, ◌++◌, append-nil, append_assoc, true, false, Bool-cases, take, drop, length,
  All, All-take, All-drop, get_or, bit_and, ◌^◌, not, take-append-drop, length-drop, ◌==◌,
  if◌then◌else◌,
}
use php_botan.Codec.Hex
use php_botan.Base.Tables.{all_from, all_below_sound}
use php_botan.Base.Words.{IsByte}
use php_botan.Codec.Hex.Tables.{bin_to_hex_upper, bin_to_hex_lower}
use native.Mathlib.Nat.{le_refl}
use mathlib.Core.Path.{subst}
use php_botan.Codec.Hex.{
  HexEncoder, uppercase, lowercase, buffer_size, encode, encode_all, send_lines, encode_and_send,
  write_full, write, end_msg,
}

-- The text without its line breaks.
unfoldable pub strip : List ℕ → List ℕ
strip [] = []
strip (c ∷ s) = if c == 0x0A then strip s else c ∷ strip s

pub strip-append : (s t : List ℕ) → strip (s ++ t) ≡ strip s ++ strip t
unfolding strip
strip-append [] t = refl
strip-append (c ∷ s) t = elim (Bool-cases (c == 0x0A)) [
  | inl e ↦ rw e (strip-append s t)
  | inr e ↦ rw e (ap (λ u. c ∷ u) (strip-append s t))
]

pub encode_all-append :
    (casing : Hex.Case) (s t : List ℕ)
    → encode_all casing (s ++ t) ≡ encode_all casing s ++ encode_all casing t
unfolding encode_all
encode_all-append casing [] t = refl
encode_all-append casing (b ∷ s) t =
    ap (λ u. encode b casing ++ u) (encode_all-append casing s t)
    ∙ sym (append_assoc (encode b casing) (encode_all casing s) (encode_all casing t))

strip_parts :
    (sent ys : List ℕ) (n : ℕ)
    → strip (sent ++ take n ys) ++ strip (drop n ys) ≡ strip sent ++ strip ys
strip_parts sent ys n =
    ap (λ t. t ++ strip (drop n ys)) (strip-append sent (take n ys))
    ∙ append_assoc (strip sent) (strip (take n ys)) (strip (drop n ys))
    ∙ ap (λ t. strip sent ++ t)
        (sym (strip-append (take n ys) (drop n ys)) ∙ ap strip (take-append-drop n ys))

pub strip_break : (s : List ℕ) → strip (s ++ 0x0A ∷ []) ≡ strip s
strip_break s = strip-append s (0x0A ∷ []) ∙ unfold strip in (append-nil (strip s))

-- With fuel for every byte, the lines hold all the text, and the counter stays within a line.
pub send_lines_text :
    (fuel line_length counter : ℕ) (out sent : List ℕ)
    → length out ≤ fuel
    → counter < line_length
    → (strip (send_lines fuel line_length counter out sent).1 ≡ strip sent ++ strip out)
      × ((send_lines fuel line_length counter out sent).0 < line_length)
unfolding send_lines
send_lines_text zero line_length counter [] sent h k =
    (unfold strip in (sym (append-nil (strip sent))), k)
send_lines_text zero line_length counter (c ∷ out) sent h k = absurd (omega arith)
send_lines_text (suc fuel) line_length counter [] sent h k =
    (unfold strip in (sym (append-nil (strip sent))), k)
send_lines_text (suc fuel) line_length counter (c ∷ out) sent h k =
    let n = min (line_length - counter) (length (c ∷ out)) in
    let rest = drop n (c ∷ out) in
    let sent' = sent ++ take n (c ∷ out) in
    let shorter : length rest ≤ fuel = omega (arith, length-drop n (c ∷ out)) in
    elim (Bool-cases (counter + n == line_length)) [
      | inl full ↦
          let (text, k') =
            send_lines_text fuel line_length 0 rest (sent' ++ 0x0A ∷ []) shorter (omega arith) in
          rw full (
            text ∙ ap (λ t. t ++ strip rest) (strip_break sent') ∙ strip_parts sent (c ∷ out) n,
            k',
          )
      | inr going ↦
          let (text, k') =
            send_lines_text fuel line_length (counter + n) rest sent' shorter (ground arith) in
          rw going (text ∙ strip_parts sent (c ∷ out) n, k')
    ]

-- No character of a byte is a line break.
encode-strip : (b : ℕ) (casing : Hex.Case) → IsByte b → strip (encode b casing) ≡ encode b casing
unfolding strip encode all_from
encode-strip b uppercase h = ground (
  arith,
  all_below_sound 256 (λ x. not (get_or bin_to_hex_upper (bit_and (x / 2 ^ 4) 0x0F) 0 == 0x0A)) b
      refl h,
  all_below_sound 256 (λ x. not (get_or bin_to_hex_upper (bit_and x 0x0F) 0 == 0x0A)) b refl h,
)
encode-strip b lowercase h = ground (
  arith,
  all_below_sound 256 (λ x. not (get_or bin_to_hex_lower (bit_and (x / 2 ^ 4) 0x0F) 0 == 0x0A)) b
      refl h,
  all_below_sound 256 (λ x. not (get_or bin_to_hex_lower (bit_and x 0x0F) 0 == 0x0A)) b refl h,
)

encode_all-strip :
    (casing : Hex.Case) (bs : List ℕ)
    → All IsByte bs
    → strip (encode_all casing bs) ≡ encode_all casing bs
unfolding encode_all
encode_all-strip casing [] h = unfold strip in refl
encode_all-strip casing (b ∷ bs) (h, hs) =
    strip-append (encode b casing) (encode_all casing bs)
    ∙ ap₂ ◌++◌ (encode-strip b casing h) (encode_all-strip casing bs hs)

-- What was sent is the text of `input`, and the counter stands within a line.
pub record Sends (e : HexEncoder) (input : List ℕ) : Type 0 where
  pub in_line : (e.line_length ≡ 0) ⊎ (e.counter < e.line_length)
  pub text : strip e.sent ≡ encode_all e.casing input

-- The encoder between two calls: there is room in the buffer, and `input` is what was sent and then
-- what is pending.
pub record Encodes (e : HexEncoder) (input : List ℕ) : Type 0 where
  pub before : List ℕ
  pub sends : Sends e before
  pub room : length e.pending < buffer_size
  pub bytes : All IsByte e.pending
  pub parts : before ++ e.pending ≡ input

module _ (e : HexEncoder) (before block : List ℕ) (h : All IsByte block) (s : Sends e before) where
  sent_text :
      strip e.sent ++ strip (encode_all e.casing block) ≡ encode_all e.casing (before ++ block)
  sent_text =
      ap₂ ◌++◌ s.text (encode_all-strip e.casing block h)
      ∙ sym (encode_all-append e.casing before block)

  pub encode_and_send-Sends : Sends (encode_and_send e block) (before ++ block)
  unfolding encode_and_send
  encode_and_send-Sends = elim s.in_line [
    | inl flat ↦ rw (unbroken flat) (record {
      in_line = inl flat;
      text = strip-append e.sent (encode_all e.casing block) ∙ sent_text;
    })
    | inr within ↦
        let (text, within') =
          send_lines_text (length (encode_all e.casing block)) e.line_length e.counter
            (encode_all e.casing block) e.sent (le_refl _) within in
        rw (broken within) (record { in_line = inr within'; text = text ∙ sent_text })
  ]
    where
      unbroken : e.line_length ≡ 0 → (e.line_length == 0) ≡ true
      unbroken q = ground arith

      broken : e.counter < e.line_length → (e.line_length == 0) ≡ false
      broken q = ground arith

pub write_full-Encodes :
    (rounds : ℕ) (e : HexEncoder) (before input : List ℕ)
    → All IsByte input
    → length input < suc rounds * buffer_size
    → rounds * buffer_size ≤ length input
    → Sends e before
    → Encodes (write_full rounds e input) (before ++ input)
unfolding write_full
write_full-Encodes zero e before input h lt le s = record {
  before = before;
  sends = record { in_line = s.in_line; text = s.text };
  room = omega arith;
  bytes = h;
  parts = refl;
}
write_full-Encodes (suc rounds) e before input h lt le s =
    subst
      (Encodes
        (write_full rounds (encode_and_send e (take buffer_size input)) (drop buffer_size input)))
      (append_assoc before (take buffer_size input) (drop buffer_size input)
        ∙ ap (λ t. before ++ t) (take-append-drop buffer_size input))
      (write_full-Encodes rounds (encode_and_send e (take buffer_size input))
        (before ++ take buffer_size input) (drop buffer_size input)
        (All-drop IsByte buffer_size input h) (omega (arith, length-drop buffer_size input))
        (omega (arith, length-drop buffer_size input))
        (encode_and_send-Sends e before (take buffer_size input)
          (All-take IsByte buffer_size input h) s))
