-- ===== src/Tests/Base64.antt =====
-- Runs of the base64 decoder.
use kraken_infer.Base.{◌≡◌, refl, List, ℕ, [], ◌∷◌, ok, err, invalid_argument, arith}
use kraken_infer.Base64.Decode.{decode_base64}
use kraken_infer.Base64.Blanks.{without_blanks}
use kraken_infer.Base64.RoundTrip.{encode, decode_base64-encode}

-- `TWFu` is `Man`, here over two lines.
abbrev two_lines : List ℕ
two_lines = b'T' ∷ b'W' ∷ 13 ∷ 10 ∷ b'F' ∷ b'u' ∷ []

two_lines_encoded : without_blanks two_lines ≡ encode (b'M' ∷ b'a' ∷ b'n' ∷ [])
unfolding without_blanks encode
two_lines_encoded = refl

after_padding : decode_base64 (b'T' ∷ b'Q' ∷ b'=' ∷ b'=' ∷ b'T' ∷ []) ≡ err invalid_argument
unfolding decode_base64
after_padding = refl

decode_base64-encode_example : decode_base64 two_lines ≡ ok (b'M' ∷ b'a' ∷ b'n' ∷ [])
decode_base64-encode_example =
    decode_base64-encode (b'M' ∷ b'a' ∷ b'n' ∷ []) two_lines
      (omega arith, (omega arith, (omega arith, tt))) two_lines_encoded
