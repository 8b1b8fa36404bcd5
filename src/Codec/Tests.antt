-- ===== src/Codec/Tests.antt =====
-- A hex text with line breaks, and back.
use php_botan.Base.{ℕ, ◌≡◌, ◌≢◌, refl, List, [], ◌∷◌, true}
use php_botan.Base.Tables.{are_bytes_sound}
use php_botan.Base.Exceptn.{ok, ◌>>=◌}
use php_botan.Codec.Hex.{
  full_check, ignore_ws, lowercase, uppercase, new_encoder, end_msg, new_decoder, encode_all,
  write_decoder, end_decoder,
}
use php_botan.Codec.Hex.Encode.{strip}
use php_botan.Codec.Hex.Stream.{write_all, concat, encoder-text}
use php_botan.Codec.Hex.RoundTrip.{decode-encode}

abbrev two_chunks : List (List ℕ)
two_chunks = (0x00 ∷ 0x7F ∷ []) ∷ (0x80 ∷ 0xFF ∷ 0x0A ∷ []) ∷ []

ne_full_check : ignore_ws ≢ full_check
ne_full_check e = cc

encoder-text_example :
    strip (end_msg (write_all (new_encoder true 3 lowercase) two_chunks)).sent
    ≡ encode_all lowercase (concat two_chunks)
encoder-text_example =
    encoder-text true 3 lowercase two_chunks (
      are_bytes_sound (0x00 ∷ 0x7F ∷ []) refl,
      (are_bytes_sound (0x80 ∷ 0xFF ∷ 0x0A ∷ []) refl, tt),
    )

decode-encode_example :
    (write_decoder
        (new_decoder ignore_ws)
        (end_msg (write_all (new_encoder true 3 uppercase) two_chunks)).sent
      >>= λ d. ok (end_decoder d).sent)
    ≡ ok (concat two_chunks)
decode-encode_example =
    decode-encode true 3 uppercase ignore_ws two_chunks
      (
        are_bytes_sound (0x00 ∷ 0x7F ∷ []) refl,
        (are_bytes_sound (0x80 ∷ 0xFF ∷ 0x0A ∷ []) refl, tt),
      )
      ne_full_check
