-- ===== src/Tokenizer/Decoding.antt =====
-- A text in the byte alphabet is cut into the symbols of its bytes, and decoded to them.
use kraken_infer.Base.{
  ℕ, ◌+◌, ◌<◌, ◌≡◌, refl, sym, ap, ◌∙◌, List, [], ◌∷◌, ◌++◌, append_assoc, map, length,
  length-append, take, take-length-append, drop-length-append, All,
}
use kraken_infer.Tokenizer.Utf8.{
  spans_from, utf8_codepoint_spans, utf8_codepoint_strings, span_text,
}
use kraken_infer.Tokenizer.Bytes.{byte_encoder, byte_encoded}
use kraken_infer.Tokenizer.Codec.{decode_spans, decode_token}
use kraken_infer.Tokenizer.Alphabet.{byte_encoder-IsSpan}

abbrev pub AreBytes : List ℕ → Type 0
AreBytes text = All (λ byte. byte < 256) text

decode_spans-byte_encoded :
    (token : List ℕ) (offset : ℕ) (text : List ℕ)
    → AreBytes text
    → decode_spans token (spans_from 0 offset (byte_encoded text)) ≡ text
unfolding byte_encoded decode_spans
decode_spans-byte_encoded token offset [] all = refl
decode_spans-byte_encoded token offset (byte ∷ text) (less, all) =
    let (codepoint, entry, spans) = byte_encoder-IsSpan byte offset (byte_encoded text) less in
    rw (spans, decode_spans, entry)
      (ap (◌∷◌ byte)
        (decode_spans-byte_encoded token (offset + length (byte_encoder byte)) text all))

pub decode_token-byte_encoded :
    (text : List ℕ) → AreBytes text → decode_token (byte_encoded text) ≡ text
unfolding decode_token
decode_token-byte_encoded text all = decode_spans-byte_encoded (byte_encoded text) 0 text all

pub byte_encoded-append :
    (xs ys : List ℕ) → byte_encoded (xs ++ ys) ≡ byte_encoded xs ++ byte_encoded ys
unfolding byte_encoded
byte_encoded-append [] ys = refl
byte_encoded-append (byte ∷ xs) ys =
    ap (λ t. byte_encoder byte ++ t) (byte_encoded-append xs ys)
    ∙ sym (append_assoc (byte_encoder byte) (byte_encoded xs) (byte_encoded ys))

strings_behind :
    (front text : List ℕ)
    → AreBytes text
    → map (span_text (front ++ byte_encoded text)) (spans_from 0 (length front) (byte_encoded text))
      ≡ map byte_encoder text
unfolding byte_encoded
strings_behind front [] all = unfold spans_from in refl
strings_behind front (byte ∷ text) (less, all) =
    let symbol = byte_encoder byte in
    let (codepoint, entry, spans) =
      byte_encoder-IsSpan byte (length front) (byte_encoded text) less in
    let here =
      ap (take (length symbol)) (drop-length-append front (symbol ++ byte_encoded text))
      ∙ take-length-append symbol (byte_encoded text) in
    let whole = append_assoc front symbol (byte_encoded text) in
    let size = length-append front symbol in
    let rest = rw (whole, size) at (strings_behind (front ++ symbol) text all) in
    rw spans (λ i. here i ∷ rest i)

pub utf8_codepoint_strings-byte_encoded :
    (text : List ℕ)
    → AreBytes text
    → utf8_codepoint_strings (byte_encoded text) ≡ map byte_encoder text
unfolding utf8_codepoint_strings utf8_codepoint_spans
utf8_codepoint_strings-byte_encoded text all = strings_behind [] text all
