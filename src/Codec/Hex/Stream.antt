-- ===== src/Codec/Hex/Stream.antt =====
-- The encoder over a whole message, in whatever pieces it is written.
use php_botan.Base.{
  ℕ, zero, suc, ◌+◌, ◌-◌, ◌/◌, ◌<◌, ◌≤◌, ◌≡◌, inl, inr, refl, sym, ap, ap₂, ◌∙◌, arith, List, [],
  ◌∷◌, ◌++◌, append-nil, append_assoc, Bool, true, false, Bool-cases, take, drop, length, leb, All,
  All-take, All-drop, All-append, take-append-drop, length-append, ◌==◌, not, ◌&&◌, ◌⊎◌,
  if◌then◌else◌,
}
use php_botan.Base.Words.{IsByte}
use php_botan.Codec.Hex
use php_botan.Codec.Hex.{
  HexEncoder, new_encoder, buffer_size, encode_all, encode_and_send, write_full, write, end_msg,
}
use php_botan.Codec.Hex.Encode.{
  strip, strip_break, Encodes, encode_and_send-Sends, write_full-Encodes,
}
use mathlib.Core.Path.{subst}

new_encoder-Encodes :
    (breaks : Bool) (len : ℕ) (casing : Hex.Case) → Encodes (new_encoder breaks len casing) []
unfolding new_encoder strip encode_all
new_encoder-Encodes breaks len casing = record {
  before = [];
  sends = record { in_line = line breaks len; text = refl };
  room = omega arith;
  bytes = tt;
  parts = refl;
}
  where
    line : (b : Bool) (n : ℕ) → ((if b then n else 0) ≡ 0) ⊎ (0 < (if b then n else 0))
    line false n = inl refl
    line true zero = inl refl
    line true (suc n) = inr (omega arith)

module _ (e : HexEncoder) (input chunk : List ℕ) (h : All IsByte chunk) (v : Encodes e input) where
  room : ℕ
  room = buffer_size - length e.pending

  regroup : (v.before ++ (e.pending ++ take room chunk)) ++ drop room chunk ≡ input ++ chunk
  regroup =
      ap (λ t. t ++ drop room chunk) (sym (append_assoc v.before e.pending (take room chunk)))
      ∙ append_assoc (v.before ++ e.pending) (take room chunk) (drop room chunk)
      ∙ ap₂ ◌++◌ v.parts (take-append-drop room chunk)

  write_fills :
      buffer_size ≤ length e.pending + length chunk
      → Encodes
          (write_full
            (length (drop room chunk) / buffer_size)
            (encode_and_send e (e.pending ++ take room chunk))
            (drop room chunk))
          (input ++ chunk)
  write_fills full =
      subst
        (Encodes (
          write_full (length (drop room chunk) / buffer_size)
            (encode_and_send e (e.pending ++ take room chunk)) (drop room chunk)))
        regroup
        (write_full-Encodes (length (drop room chunk) / buffer_size)
          (encode_and_send e (e.pending ++ take room chunk))
          (v.before ++ (e.pending ++ take room chunk)) (drop room chunk)
          (All-drop IsByte room chunk h) (omega arith) (omega arith)
          (encode_and_send-Sends e v.before (e.pending ++ take room chunk)
            (All-append IsByte e.pending (take room chunk) v.bytes (All-take IsByte room chunk h))
            v.sends))

  -- Whatever the size of a chunk, after it the encoder stands at the whole message.
  pub write-Encodes : Encodes (write e chunk) (input ++ chunk)
  unfolding write room
  write-Encodes = elim (Bool-cases (leb buffer_size (length e.pending + length chunk))) [
    | inl full ↦ rw full (write_fills (ground arith))
    | inr fits ↦ rw fits (record {
      before = v.before;
      sends = record { in_line = v.sends.in_line; text = v.sends.text };
      room = omega (arith, length-append e.pending chunk, small fits);
      bytes = All-append IsByte e.pending chunk v.bytes h;
      parts = sym (append_assoc v.before e.pending chunk) ∙ ap (λ t. t ++ chunk) v.parts;
    })
  ]
    where
      small :
          leb buffer_size (length e.pending + length chunk) ≡ false
          → length e.pending + length chunk < buffer_size
      small q = ground arith

encode_and_send-casing :
    (e : HexEncoder) (block : List ℕ) → (encode_and_send e block).casing ≡ e.casing
unfolding encode_and_send
encode_and_send-casing e block = ground arith

write_full-casing :
    (rounds : ℕ) (e : HexEncoder) (input : List ℕ) → (write_full rounds e input).casing ≡ e.casing
unfolding write_full
write_full-casing zero e input = refl
write_full-casing (suc rounds) e input =
    write_full-casing rounds (encode_and_send e (take buffer_size input)) (drop buffer_size input)
    ∙ encode_and_send-casing e (take buffer_size input)

write-casing : (e : HexEncoder) (chunk : List ℕ) → (write e chunk).casing ≡ e.casing
unfolding write
write-casing e chunk = elim (Bool-cases (leb buffer_size (length e.pending + length chunk))) [
  | inl full ↦
      let room = buffer_size - length e.pending in
      rw full (
        write_full-casing (length (drop room chunk) / buffer_size)
          (encode_and_send e (e.pending ++ take room chunk)) (drop room chunk)
        ∙ encode_and_send-casing e (e.pending ++ take room chunk))
  | inr fits ↦ rw fits
]

-- At the end all the message is sent.
end_msg-text :
    (e : HexEncoder) (input : List ℕ)
    → Encodes e input
    → strip (end_msg e).sent ≡ encode_all e.casing input
unfolding end_msg
end_msg-text e input v =
    elim (Bool-cases (not (last.counter == 0) && not (last.line_length == 0))) [
      | inl broken ↦ rw broken (strip_break last.sent ∙ text)
      | inr closed ↦ rw closed text
    ]
  where
    last : HexEncoder
    last = encode_and_send e e.pending

    text : strip last.sent ≡ encode_all e.casing input
    text =
        (encode_and_send-Sends e v.before e.pending v.bytes v.sends).text
        ∙ ap₂ encode_all (encode_and_send-casing e e.pending) v.parts

-- A message written in pieces.
abbrev pub write_all : HexEncoder → List (List ℕ) → HexEncoder
write_all e [] = e
write_all e (chunk ∷ chunks) = write_all (write e chunk) chunks

abbrev pub concat : List (List ℕ) → List ℕ
concat [] = []
concat (chunk ∷ chunks) = chunk ++ concat chunks

write_all-text :
    (e : HexEncoder) (input : List ℕ) (chunks : List (List ℕ))
    → All (All IsByte) chunks
    → Encodes e input
    → strip (end_msg (write_all e chunks)).sent ≡ encode_all e.casing (input ++ concat chunks)
write_all-text e input [] h v =
    end_msg-text e input v ∙ ap (encode_all e.casing) (sym (append-nil input))
write_all-text e input (chunk ∷ chunks) (h, hs) v =
    write_all-text (write e chunk) (input ++ chunk) chunks hs (write-Encodes e input chunk h v)
    ∙ ap₂ encode_all (write-casing e chunk) (append_assoc input chunk (concat chunks))

-- A message of bytes, written in any pieces with any line length and then ended, is sent as its
-- characters in order: without the line breaks the text is that of the whole message.
pub encoder-text :
    (breaks : Bool) (len : ℕ) (casing : Hex.Case) (chunks : List (List ℕ))
    → All (All IsByte) chunks
    → strip (end_msg (write_all (new_encoder breaks len casing) chunks)).sent
      ≡ encode_all casing (concat chunks)
encoder-text breaks len casing chunks h =
    unfold new_encoder in
    (write_all-text (new_encoder breaks len casing) [] chunks h
      (new_encoder-Encodes breaks len casing))
