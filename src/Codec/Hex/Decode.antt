-- ===== src/Codec/Hex/Decode.antt =====
-- What the decoder makes of the characters of bytes, with line breaks among them.
use php_botan.Base.{
  ℕ, ◌+◌, ◌-◌, ◌*◌, ◌/◌, ◌^◌, ◌<◌, ◌≤◌, ◌≡◌, ◌≢◌, inl, inr, refl, sym, ap, ◌∙◌, arith, List, [],
  ◌∷◌, ◌++◌, append-nil, append_assoc, Bool, true, false, Bool-cases, length, All, get_or, bit_and,
  length-append, ◌==◌, if◌then◌else◌,
}
use php_botan.Base.Tables.{all_from, all_below_sound, eq_by_table}
use php_botan.Base.Words.{IsByte}
use php_botan.Base.Exceptn.{Result, ok, throw, ◌>>=◌, decoding_error}
use mathlib.Core.Path.{subst}
use php_botan.Utils.Charset.{is_space}
use php_botan.Codec.Hex
use php_botan.Codec.Hex.{
  HexDecoder, uppercase, lowercase, ignore_ws, full_check, new_decoder, buffer_size, encode,
  encode_all, none, is_valid, ignores, decode, decode_pairs, flush_full, put, write_decoder,
  end_decoder,
}
use php_botan.Codec.Hex.Encode.{strip}
use php_botan.Codec.Hex.Tables.{bin_to_hex_upper, bin_to_hex_lower}

-- The two characters of a byte, and that they decode to it.
encode_valid :
    (b : ℕ) (casing : Hex.Case)
    → IsByte b
    → (h0 : ℕ) × (h1 : ℕ) × (encode b casing ≡ h0 ∷ h1 ∷ [])
      × (is_valid h0 ≡ true)
      × (is_valid h1 ≡ true)
      × (decode h0 h1 ≡ b)
unfolding encode is_valid decode all_from
encode_valid b uppercase h = (
  _,
  _,
  refl,
  valid.0,
  valid.1,
  eq_by_table 256
      (λ x. decode (get_or upper (bit_and (x / 2 ^ 4) 0x0F) 0) (get_or upper (bit_and x 0x0F) 0))
      (λ x. x) b refl h,
)
  where
    upper : List ℕ
    upper = bin_to_hex_upper

    valid :
        (is_valid (get_or upper (bit_and (b / 2 ^ 4) 0x0F) 0) ≡ true)
        × (is_valid (get_or upper (bit_and b 0x0F) 0) ≡ true)
    valid = (
      all_below_sound 256 (λ x. is_valid (get_or bin_to_hex_upper (bit_and (x / 2 ^ 4) 0x0F) 0)) b
          refl h,
      all_below_sound 256 (λ x. is_valid (get_or bin_to_hex_upper (bit_and x 0x0F) 0)) b refl h,
    )
encode_valid b lowercase h = (
  _,
  _,
  refl,
  valid.0,
  valid.1,
  eq_by_table 256
      (λ x. decode (get_or lower (bit_and (x / 2 ^ 4) 0x0F) 0) (get_or lower (bit_and x 0x0F) 0))
      (λ x. x) b refl h,
)
  where
    lower : List ℕ
    lower = bin_to_hex_lower

    valid :
        (is_valid (get_or lower (bit_and (b / 2 ^ 4) 0x0F) 0) ≡ true)
        × (is_valid (get_or lower (bit_and b 0x0F) 0) ≡ true)
    valid = (
      all_below_sound 256 (λ x. is_valid (get_or bin_to_hex_lower (bit_and (x / 2 ^ 4) 0x0F) 0)) b
          refl h,
      all_below_sound 256 (λ x. is_valid (get_or bin_to_hex_lower (bit_and x 0x0F) 0)) b refl h,
    )

-- The decoder between two characters: what was sent, and what the pending characters stand for, is
-- `output`; an even number is pending, and there is room for a pair.
pub record Decodes (d : HexDecoder) (output : List ℕ) : Type 0 where
  pub even : (k : ℕ) × (length d.pending ≡ 2 * k)
  pub room : length d.pending < buffer_size
  pub parts : d.sent ++ decode_pairs d.pending ≡ output

decode_pairs-snoc :
    (hs : List ℕ) (h0 h1 k : ℕ)
    → length hs ≡ 2 * k
    → decode_pairs (hs ++ (h0 ∷ h1 ∷ [])) ≡ decode_pairs hs ++ decode h0 h1 ∷ []
unfolding decode_pairs
decode_pairs-snoc [] h0 h1 k e = refl
decode_pairs-snoc (a ∷ []) h0 h1 k e = absurd (omega arith)
decode_pairs-snoc (a ∷ b ∷ hs) h0 h1 k e =
    ap (λ t. decode a b ∷ t) (decode_pairs-snoc hs h0 h1 (k - 1) (omega arith))

put_valid :
    (d : HexDecoder) (c : ℕ)
    → is_valid c ≡ true
    → put d c ≡ ok (flush_full (record d { pending = d.pending ++ c ∷ [] }))
unfolding put
put_valid d c v =
    ap
      (λ (b : Bool).
        if b
        then ok (flush_full (record d { pending = d.pending ++ c ∷ [] }))
        else if ignores d.checking c
        then ok (flush_full d)
        else throw decoding_error)
      v

flush_full-room : (d : HexDecoder) → length d.pending ≢ buffer_size → flush_full d ≡ d
unfolding flush_full
flush_full-room d h = ground arith

flush_full-Decodes :
    (d : HexDecoder) (output : List ℕ) (k : ℕ)
    → length d.pending ≡ 2 * k
    → length d.pending ≤ buffer_size
    → d.sent ++ decode_pairs d.pending ≡ output
    → Decodes (flush_full d) output
unfolding flush_full
flush_full-Decodes d output k e le parts = elim (Bool-cases (length d.pending == buffer_size)) [
  | inl full ↦ rw full (record {
    even = (0, refl);
    room = omega arith;
    parts = unfold decode_pairs in (append-nil (d.sent ++ decode_pairs d.pending)) ∙ parts;
  })
  | inr room ↦ rw room (record { even = (k, e); room = ground arith; parts = parts })
]

-- A pair of valid characters is decoded, at once or later. Only the second can fill the buffer.
put_pair :
    (d : HexDecoder) (output : List ℕ) (h0 h1 : ℕ)
    → is_valid h0 ≡ true
    → is_valid h1 ≡ true
    → Decodes d output
    → (d' : HexDecoder) × ((put d h0 >>= λ e. put e h1) ≡ ok d')
      × Decodes d' (output ++ decode h0 h1 ∷ [])
put_pair d output h0 h1 v0 v1 s = (
  flush_full second,
  rw (put_valid d h0 v0, flush_full-room first (omega (arith, len1, s.even.1)))
      (put_valid first h1 v1),
  flush_full-Decodes second (output ++ decode h0 h1 ∷ []) (s.even.0 + 1)
      (omega (arith, len2, s.even.1)) (omega (arith, len2, s.even.1, s.room)) text,
)
  where
    first : HexDecoder
    first = record d { pending = d.pending ++ h0 ∷ [] }

    second : HexDecoder
    second = record d { pending = (d.pending ++ h0 ∷ []) ++ h1 ∷ [] }

    len1 : length first.pending ≡ length d.pending + 1
    len1 = length-append d.pending (h0 ∷ [])

    len2 : length second.pending ≡ length d.pending + 2
    len2 = omega (arith, length-append first.pending (h1 ∷ []), len1)

    text : second.sent ++ decode_pairs second.pending ≡ output ++ decode h0 h1 ∷ []
    text =
        ap (λ t. d.sent ++ t)
          (ap decode_pairs (append_assoc d.pending (h0 ∷ []) (h1 ∷ []))
            ∙ decode_pairs-snoc d.pending h0 h1 s.even.0 s.even.1)
        ∙ sym (append_assoc d.sent (decode_pairs d.pending) (decode h0 h1 ∷ []))
        ∙ ap (λ t. t ++ decode h0 h1 ∷ []) s.parts

write_chars :
    (d mid : HexDecoder) (h0 h1 : ℕ) (cs rest : List ℕ)
    → cs ≡ h0 ∷ h1 ∷ []
    → (put d h0 >>= λ e. put e h1) ≡ ok mid
    → write_decoder d (cs ++ rest) ≡ write_decoder mid rest
unfolding write_decoder
write_chars d mid h0 h1 cs rest e pair =
    ap (λ t. write_decoder d (t ++ rest)) e
    ∙ bind_assoc (put d h0)
    ∙ ap (λ m. m >>= λ d'. write_decoder d' rest) pair
  where
    bind_assoc :
        (m : Result HexDecoder)
        → (m >>= λ d'. put d' h1 >>= λ d''. write_decoder d'' rest)
          ≡ ((m >>= λ e. put e h1) >>= λ d''. write_decoder d'' rest)
    bind_assoc (ok x) = refl
    bind_assoc (throw x) = refl

-- The text of a message decodes to the message, behind what was decoded before.
pub write_decoder-encode_all :
    (casing : Hex.Case) (bs : List ℕ) (d : HexDecoder) (output : List ℕ)
    → All IsByte bs
    → Decodes d output
    → (d' : HexDecoder) × (write_decoder d (encode_all casing bs) ≡ ok d')
      × Decodes d' (output ++ bs)
unfolding write_decoder encode_all
write_decoder-encode_all casing [] d output h s = (d, refl, rw append-nil s)
write_decoder-encode_all casing (b ∷ bs) d output (h, hs) s =
    let (h0, h1, chars, v0, v1, back) = encode_valid b casing h in
    let (mid, pair, mid_ok) = put_pair d output h0 h1 v0 v1 s in
    let (d', rest, d'_ok) =
      write_decoder-encode_all casing bs mid (output ++ decode h0 h1 ∷ []) hs mid_ok in
    let moved : (output ++ decode h0 h1 ∷ []) ++ bs ≡ output ++ b ∷ bs =
      append_assoc output (decode h0 h1 ∷ []) bs ∙ ap (λ (x : ℕ). output ++ x ∷ bs) back in
    (
      d',
      write_chars d mid h0 h1 (encode b casing) (encode_all casing bs) chars pair ∙ rest,
      subst (Decodes d') moved d'_ok,
    )

-- A decoder that skips line breaks, between two characters.
pub record Skips (d : HexDecoder) : Type 0 where
  skipping : d.checking ≢ full_check
  has_room : length d.pending < buffer_size

ignores_break : (k : Hex.DecoderChecking) → k ≢ full_check → ignores k 0x0A ≡ true
unfolding ignores is_space
ignores_break none h = refl
ignores_break ignore_ws h = refl
ignores_break full_check h = absurd (h refl)

-- A line break changes nothing.
put_break : (d : HexDecoder) → Skips d → put d 0x0A ≡ ok d
unfolding put
put_break d s =
    ap (λ (b : Bool). if b then ok (flush_full d) else throw decoding_error)
      (ignores_break d.checking s.skipping)
    ∙ ap ok (flush_full-room d (λ e. absurd (omega (arith, e, s.has_room))))

flush_full-Skips :
    (d : HexDecoder)
    → d.checking ≢ full_check
    → length d.pending ≤ buffer_size
    → Skips (flush_full d)
unfolding flush_full
flush_full-Skips d c h = elim (Bool-cases (length d.pending == buffer_size)) [
  | inl full ↦ rw full (record { skipping = c; has_room = omega arith })
  | inr room ↦ rw room (record { skipping = c; has_room = ground arith })
]

put-Skips : (d : HexDecoder) (c : ℕ) {d' : HexDecoder} → Skips d → put d c ≡ ok d' → Skips d'
unfolding put
put-Skips d c s e = by_test (is_valid c) (ignores d.checking c) e
  where
    grown : HexDecoder
    grown = record d { pending = d.pending ++ c ∷ [] }

    by_test :
        (v i : Bool) {d' : HexDecoder}
        → (if v
            then ok (flush_full grown)
            else if i
            then ok (flush_full d)
            else throw decoding_error)
          ≡ ok d'
        → Skips d'
    by_test true i e = subst Skips (ground arith) (
        flush_full-Skips grown s.skipping
          (omega (arith, length-append d.pending (c ∷ []), s.has_room)))
    by_test false true e =
        subst Skips (ground arith) (flush_full-Skips d s.skipping (omega (arith, s.has_room)))
    by_test false false e = cc

-- Decoding a text is decoding it without its line breaks.
pub write_decoder-strip :
    (t : List ℕ) (d : HexDecoder) → Skips d → write_decoder d t ≡ write_decoder d (strip t)
unfolding write_decoder strip
write_decoder-strip [] d s = refl
write_decoder-strip (c ∷ t) d s = elim (Bool-cases (c == 0x0A)) [
  | inl line ↦
      let e : c ≡ 0x0A = ground arith in rw (line, e, put_break d s) (write_decoder-strip t d s)
  | inr char ↦ rw char (next (put d c) (λ d' e. write_decoder-strip t d' (put-Skips d c s e)))
]
  where
    next :
        (m : Result HexDecoder)
        → ((d' : HexDecoder) → m ≡ ok d' → write_decoder d' t ≡ write_decoder d' (strip t))
        → (m >>= λ d'. write_decoder d' t) ≡ (m >>= λ d'. write_decoder d' (strip t))
    next (ok d') h = h d' refl
    next (throw e) h = refl

pub new_decoder-Decodes : (checking : Hex.DecoderChecking) → Decodes (new_decoder checking) []
unfolding new_decoder decode_pairs
new_decoder-Decodes checking = record { even = (0, refl); room = omega arith; parts = refl }

pub new_decoder-Skips :
    (checking : Hex.DecoderChecking) → checking ≢ full_check → Skips (new_decoder checking)
unfolding new_decoder
new_decoder-Skips checking h = record { skipping = h; has_room = omega arith }

pub end_decoder-sent :
    (d : HexDecoder) (output : List ℕ) → Decodes d output → (end_decoder d).sent ≡ output
unfolding end_decoder
end_decoder-sent d output s = s.parts
