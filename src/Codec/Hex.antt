-- ===== src/Codec/Hex.antt =====
-- codec/hex/hex.cpp: the hex encoder and decoder. Of a filter's buffer `in` the model has the bytes
-- before `position`; `sent` is what the filter has passed on, in order.
pub mod Tables
pub mod Encode
pub mod Stream
pub mod Decode
pub mod RoundTrip
use php_botan.Base.{
  ℕ, zero, suc, ◌+◌, ◌-◌, ◌*◌, ◌/◌, ◌%◌, ◌^◌, min, List, [], ◌∷◌, ◌++◌, Bool, true, false, ◌&&◌,
  ◌||◌, not, take, drop, length, get_or, bit_and, bit_or, ltb, leb, ◌==◌, if◌then◌else◌,
}
use php_botan.Base.Words.{u8}
use php_botan.Base.Exceptn.{Result, ok, throw, ◌>>=◌, decoding_error}
use php_botan.Utils.Charset.{is_space}
use Tables.{bin_to_hex_upper, bin_to_hex_lower, hex_to_bin}

pub data Case : Type 0 where
  uppercase lowercase : Case

-- The size of both filters' buffers `in`.
abbrev pub buffer_size : ℕ
buffer_size = 64

pub record HexEncoder : Type 0 where
  pub casing : Case
  pub line_length : ℕ
  pub pending : List ℕ
  pub counter : ℕ
  pub sent : List ℕ

-- `Hex_Encoder(breaks, length, c)`
pub new_encoder : Bool → ℕ → Case → HexEncoder
new_encoder breaks length c = record {
  casing = c;
  line_length = if breaks then length else 0;
  pending = [];
  counter = 0;
  sent = [];
}

table : Case → List ℕ
table uppercase = bin_to_hex_upper
table lowercase = bin_to_hex_lower

-- `Hex_Encoder::encode`
unfoldable pub encode : ℕ → Case → List ℕ
unfolding table
encode b casing =
    get_or (table casing) (bit_and (b / 2 ^ 4) 0x0F) 0
    ∷ get_or (table casing) (bit_and b 0x0F) 0
    ∷ []

-- The first loop of `encode_and_send`, which fills `out`.
unfoldable pub encode_all : Case → List ℕ → List ℕ
unfolding encode
encode_all casing [] = []
encode_all casing (b ∷ bs) = encode b casing ++ encode_all casing bs

-- The loop over lines, on what remains of `out`. Each round sends one byte at least while `counter`
-- is below `line_length`, so that the count of bytes is fuel enough.
unfoldable pub send_lines : ℕ → ℕ → ℕ → List ℕ → List ℕ → ℕ × List ℕ
send_lines zero line_length counter out sent = (counter, sent)
send_lines (suc fuel) line_length counter [] sent = (counter, sent)
send_lines (suc fuel) line_length counter (c ∷ out) sent =
    let n = min (line_length - counter) (length (c ∷ out)) in
    let sent' = sent ++ take n (c ∷ out) in
    let broken = send_lines fuel line_length 0 (drop n (c ∷ out)) (sent' ++ 0x0A ∷ []) in
    let going = send_lines fuel line_length (counter + n) (drop n (c ∷ out)) sent' in
    if counter + n == line_length then broken else going

unfoldable pub encode_and_send : HexEncoder → List ℕ → HexEncoder
unfolding encode_all send_lines
encode_and_send e block =
    let out = encode_all e.casing block in
    let lines = send_lines (length out) e.line_length e.counter out e.sent in
    if e.line_length == 0
    then record e { sent = e.sent ++ out }
    else record e { counter = lines.0; sent = lines.1 }

-- `while(length >= in.size())`, with the number of rounds, and the input that is left.
unfoldable pub write_full : ℕ → HexEncoder → List ℕ → HexEncoder
unfolding encode_and_send
write_full zero e input = record e { pending = input }
write_full (suc rounds) e input =
    write_full rounds (encode_and_send e (take buffer_size input)) (drop buffer_size input)

unfoldable pub write : HexEncoder → List ℕ → HexEncoder
unfolding write_full
write e input =
    let room = buffer_size - length e.pending in
    let rest = drop room input in
    if leb buffer_size (length e.pending + length input)
    then write_full (length rest / buffer_size) (encode_and_send e (e.pending ++ take room input))
        rest
    else record e { pending = e.pending ++ input }

unfoldable pub end_msg : HexEncoder → HexEncoder
unfolding encode_and_send
end_msg e =
    let e' = encode_and_send e e.pending in
    let sent' =
      if not (e'.counter == 0) && not (e'.line_length == 0)
      then e'.sent ++ 0x0A ∷ []
      else e'.sent in
    record e' { pending = []; counter = 0; sent = sent' }

-- Decoder_Checking.
pub data DecoderChecking : Type 0 where
  none ignore_ws full_check : DecoderChecking

pub record HexDecoder : Type 0 where
  pub checking : DecoderChecking
  pub pending : List ℕ
  pub sent : List ℕ

pub new_decoder : DecoderChecking → HexDecoder
new_decoder checking = record { checking = checking; pending = []; sent = [] }

unfoldable pub is_valid : ℕ → Bool
is_valid b = not (get_or hex_to_bin b 0x80 == 0x80)

-- Whether `handle_bad_char` returns.
unfoldable pub ignores : DecoderChecking → ℕ → Bool
ignores none c = true
ignores ignore_ws c = is_space c
ignores full_check c = false

-- `Hex_Decoder::decode`
unfoldable pub decode : ℕ → ℕ → ℕ
decode h0 h1 = bit_or (u8 (get_or hex_to_bin h0 0x80 * 2 ^ 4)) (get_or hex_to_bin h1 0x80)

unfoldable pub decode_pairs : List ℕ → List ℕ
decode_pairs [] = []
decode_pairs (h0 ∷ []) = []
decode_pairs (h0 ∷ h1 ∷ hs) = decode h0 h1 ∷ decode_pairs hs

unfoldable pub decode_and_send : HexDecoder → List ℕ → HexDecoder
unfolding decode_pairs
decode_and_send d block = record d { sent = d.sent ++ decode_pairs block }

-- `if(position == in.size()) { ... }`
unfoldable pub flush_full : HexDecoder → HexDecoder
unfolding decode_and_send
flush_full d =
    if length d.pending == buffer_size
    then record (decode_and_send d d.pending) { pending = [] }
    else d

-- A round of the loop of `write`.
unfoldable pub put : HexDecoder → ℕ → Result HexDecoder
unfolding flush_full is_valid ignores
put d c =
    if is_valid c
    then ok (flush_full (record d { pending = d.pending ++ c ∷ [] }))
    else if ignores d.checking c
    then ok (flush_full d)
    else throw decoding_error

unfoldable pub write_decoder : HexDecoder → List ℕ → Result HexDecoder
unfolding put
write_decoder d [] = ok d
write_decoder d (c ∷ cs) = put d c >>= λ d'. write_decoder d' cs

unfoldable pub end_decoder : HexDecoder → HexDecoder
unfolding decode_and_send
end_decoder d = record (decode_and_send d d.pending) { pending = [] }
