-- ===== src/Codec/Hex/RoundTrip.antt =====
-- The decoder undoes the encoder, over whole messages.
use php_botan.Base.{ℕ, ◌≡◌, ◌≢◌, ap, ◌∙◌, List, [], Bool, ◌∷◌, All, All-append}
use php_botan.Base.Words.{IsByte}
use php_botan.Base.Exceptn.{ok, ◌>>=◌}
use php_botan.Codec.Hex
use php_botan.Codec.Hex.{
  HexDecoder, full_check, new_encoder, end_msg, new_decoder, encode_all, write_decoder, end_decoder,
}
use php_botan.Codec.Hex.Stream.{write_all, concat, encoder-text}
use php_botan.Codec.Hex.Decode.{
  new_decoder-Decodes, new_decoder-Skips, write_decoder-strip, write_decoder-encode_all,
  end_decoder-sent,
}

concat-IsByte : (chunks : List (List ℕ)) → All (All IsByte) chunks → All IsByte (concat chunks)
concat-IsByte [] h = tt
concat-IsByte (chunk ∷ chunks) (h, hs) =
    All-append IsByte chunk (concat chunks) h (concat-IsByte chunks hs)

-- A message of bytes, written to the encoder in any pieces, with any line length and case, decodes to
-- the message, if the decoder does not check in full.
pub decode-encode :
    (breaks : Bool) (len : ℕ) (casing : Hex.Case) (checking : Hex.DecoderChecking)
    (chunks : List (List ℕ))
    → All (All IsByte) chunks
    → checking ≢ full_check
    → (write_decoder
          (new_decoder checking)
          (end_msg (write_all (new_encoder breaks len casing) chunks)).sent
        >>= λ d. ok (end_decoder d).sent)
      ≡ ok (concat chunks)
decode-encode breaks len casing checking chunks h c =
    let text = (end_msg (write_all (new_encoder breaks len casing) chunks)).sent in
    let d = new_decoder checking in
    let (d', e, s) =
      write_decoder-encode_all casing (concat chunks) d [] (concat-IsByte chunks h)
        (new_decoder-Decodes checking) in
    ap (λ m. m >>= λ d. ok (end_decoder d).sent)
      (write_decoder-strip text d (new_decoder-Skips checking c)
        ∙ ap (write_decoder d) (encoder-text breaks len casing chunks h)
        ∙ e)
    ∙ ap ok (end_decoder-sent d' (concat chunks) s)
