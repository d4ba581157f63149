-- ===== src/Tokenizer/Utf8.antt =====
-- UTF-8: `append_codepoint_utf8` and `utf8_codepoint_spans`. Bytes are numbers below 256, and a shift to
-- the left by 6, 12 or 18 is a product. The shifted parts of a code point have no bit in common, so `|`
-- of them is their sum.
use Prim.Native.Nat.{bit_and, bit_or}
use kraken_infer.Base.{
  ℕ, zero, suc, ◌+◌, ◌-◌, ◌*◌, ◌/◌, ◌%◌, ◌&&◌, List, [], ◌∷◌, ◌++◌, map, leb, ◌==◌, if◌then◌else◌,
  take, drop,
}

pub record CodepointSpan : Type 0 where
  pub codepoint : ℕ
  pub byte_offset : ℕ
  pub byte_length : ℕ

unfoldable pub append_codepoint_utf8 : List ℕ → ℕ → List ℕ
append_codepoint_utf8 output codepoint =
    if leb codepoint 0x7F
    then output ++ codepoint ∷ []
    else if leb codepoint 0x7FF
    then output ++ bit_or 0xC0 (codepoint / 64) ∷ bit_or 0x80 (codepoint % 64) ∷ []
    else if leb codepoint 0xFFFF
    then output
      ++ bit_or 0xE0 (codepoint / 4096)
        ∷ bit_or 0x80 (codepoint / 64 % 64)
        ∷ bit_or 0x80 (codepoint % 64)
        ∷ []
    else output
      ++ bit_or 0xF0 (codepoint / 262144)
        ∷ bit_or 0x80 (codepoint / 4096 % 64)
        ∷ bit_or 0x80 (codepoint / 64 % 64)
        ∷ bit_or 0x80 (codepoint % 64)
        ∷ []

-- A code point with the number of its bytes.
abbrev pub Sequence : Type 0
Sequence = ℕ × ℕ

-- What stands for a byte that begins no sequence.
abbrev pub replacement : Sequence
replacement = (0xFFFD, 1)

-- Sequences of two, three and four bytes, where the first byte says so and the others go on.
unfoldable pub two_bytes : ℕ → List ℕ → Sequence → Sequence
two_bytes byte0 (byte1 ∷ rest) otherwise =
    if bit_and byte0 0xE0 == 0xC0 && bit_and byte1 0xC0 == 0x80
    then (bit_and byte0 0x1F * 64 + bit_and byte1 0x3F, 2)
    else otherwise
two_bytes byte0 [] otherwise = otherwise

unfoldable pub three_bytes : ℕ → List ℕ → Sequence → Sequence
three_bytes byte0 (byte1 ∷ byte2 ∷ rest) otherwise =
    if bit_and byte0 0xF0 == 0xE0 && (bit_and byte1 0xC0 == 0x80 && bit_and byte2 0xC0 == 0x80)
    then (bit_and byte0 0x0F * 4096 + bit_and byte1 0x3F * 64 + bit_and byte2 0x3F, 3)
    else otherwise
three_bytes byte0 (byte1 ∷ []) otherwise = otherwise
three_bytes byte0 [] otherwise = otherwise

unfoldable pub four_bytes : ℕ → List ℕ → Sequence → Sequence
four_bytes byte0 (byte1 ∷ byte2 ∷ byte3 ∷ rest) otherwise =
    if bit_and byte0 0xF8 == 0xF0
      && (bit_and byte1 0xC0 == 0x80 && (bit_and byte2 0xC0 == 0x80 && bit_and byte3 0xC0 == 0x80))
    then (
      bit_and byte0 0x07 * 262144
          + bit_and byte1 0x3F * 4096
          + bit_and byte2 0x3F * 64
          + bit_and byte3 0x3F,
      4,
    )
    else otherwise
four_bytes byte0 (byte1 ∷ byte2 ∷ []) otherwise = otherwise
four_bytes byte0 (byte1 ∷ []) otherwise = otherwise
four_bytes byte0 [] otherwise = otherwise

-- The sequence at the front of a text: the first byte and what follows it.
unfoldable pub front : ℕ → List ℕ → Sequence
unfolding two_bytes three_bytes four_bytes
front byte0 rest =
    if bit_and byte0 0x80 == 0
    then (byte0, 1)
    else two_bytes byte0 rest (three_bytes byte0 rest (four_bytes byte0 rest replacement))

-- The loop, over the bytes from `offset` on. A round takes one sequence; `skip` counts the bytes of it
-- that are still to be passed.
unfoldable pub spans_from : ℕ → ℕ → List ℕ → List CodepointSpan
unfolding front
spans_from skip offset [] = []
spans_from zero offset (byte ∷ rest) =
    let sequence = front byte rest in
    record { codepoint = sequence.0; byte_offset = offset; byte_length = sequence.1 }
    ∷ spans_from (sequence.1 - 1) (offset + 1) rest
spans_from (suc skip) offset (byte ∷ rest) = spans_from skip (offset + 1) rest

unfoldable pub utf8_codepoint_spans : List ℕ → List CodepointSpan
unfolding spans_from
utf8_codepoint_spans text = spans_from 0 0 text

-- `text.substr(offset, length)`.
abbrev pub substr : List ℕ → ℕ → ℕ → List ℕ
substr text offset count = take count (drop offset text)

abbrev pub span_text : List ℕ → CodepointSpan → List ℕ
span_text text span = substr text span.byte_offset span.byte_length

unfoldable pub utf8_codepoint_strings : List ℕ → List (List ℕ)
unfolding utf8_codepoint_spans
utf8_codepoint_strings text = map (span_text text) (utf8_codepoint_spans text)
