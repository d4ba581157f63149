-- ===== src/Base64/RoundTrip.antt =====
-- Bytes that are written in base64 are read back, also where the text is broken into lines.
use kraken_infer.Base.{
  ℕ, ◌+◌, ◌-◌, ◌*◌, ◌/◌, ◌%◌, ◌^◌, ◌<◌, ◌≡◌, refl, sym, ap, ◌∙◌, false, List, [], ◌∷◌, ◌++◌,
  append_assoc, append-nil, some, All, ltb, ◌==◌, if◌then◌else◌, Outcome, ok, ◌>>=◌, arith,
}
use kraken_infer.Base64.Decode.{
  base64_value, Decoder, new_decoder, is_blank, push_bits, decode_value, decode_character,
  decode_loop, decode_base64,
}
use kraken_infer.Base64.Blanks.{without_blanks, decode_loop-blanks}

-- The alphabet of RFC 4648.
abbrev pub character_of : ℕ → ℕ
character_of v =
    if ltb v 26
    then v + b'A'
    else if ltb v 52
    then v - 26 + b'a'
    else if ltb v 62
    then v - 52 + b'0'
    else if v == 62
    then b'+'
    else b'/'

-- Three bytes are four characters of six bits each; one or two bytes at the end are padded.
unfoldable pub encode : List ℕ → List ℕ
encode [] = []
encode (a ∷ []) = character_of (a / 4) ∷ character_of (a % 4 * 16) ∷ b'=' ∷ b'=' ∷ []
encode (a ∷ b ∷ []) =
    character_of (a / 4)
    ∷ character_of (a % 4 * 16 + b / 16)
    ∷ character_of (b % 16 * 4)
    ∷ b'='
    ∷ []
encode (a ∷ b ∷ c ∷ bytes) =
    character_of (a / 4)
    ∷ character_of (a % 4 * 16 + b / 16)
    ∷ character_of (b % 16 * 4 + c / 64)
    ∷ character_of (c % 64)
    ∷ encode bytes

character_blank : (v : ℕ) → v < 64 → is_blank (character_of v) ≡ false
unfolding is_blank
character_blank v h = ground arith

character_padding : (v : ℕ) → v < 64 → (character_of v == b'=') ≡ false
character_padding v h = ground arith

base64_value-character_of : (v : ℕ) → v < 64 → base64_value (character_of v) ≡ some v
unfolding base64_value
base64_value-character_of v h = ground arith

step :
    (v : ℕ) (d : Decoder)
    → v < 64
    → d.seen_padding ≡ false
    → decode_character (character_of v) d ≡ ok (push_bits v d)
unfolding decode_character decode_value
step v d h reading =
    rw (character_blank v h, character_padding v h, reading, base64_value-character_of v h) refl

abbrev at_bits : List ℕ → ℕ → ℕ → Decoder
at_bits output buffer bits = record {
  output = output;
  buffer = buffer;
  bits = bits;
  seen_padding = false;
}

abbrev next : ℕ → ℕ → ℕ
next buffer value = buffer * 64 % 2 ^ 32 + value

first_byte :
    (buffer a b : ℕ)
    → a < 256
    → b < 256
    → next (next buffer (a / 4)) (a % 4 * 16 + b / 16) / 2 ^ 4 % 256 ≡ a
first_byte buffer a b ha hb = omega arith

second_byte :
    (buffer a b c : ℕ)
    → a < 256
    → b < 256
    → c < 256
    → next (next buffer (a % 4 * 16 + b / 16)) (b % 16 * 4 + c / 64) / 2 ^ 2 % 256 ≡ b
second_byte buffer a b c ha hb hc = omega arith

third_byte :
    (buffer b c : ℕ)
    → b < 256
    → c < 256
    → next (next buffer (b % 16 * 4 + c / 64)) (c % 64) / 2 ^ 0 % 256 ≡ c
third_byte buffer b c hb hc = omega arith

-- Two characters give the first byte, the third the second, and the fourth the third.
two_characters :
    (a b buffer : ℕ) (output input : List ℕ)
    → a < 256
    → b < 256
    → decode_loop
        (character_of (a / 4) ∷ character_of (a % 4 * 16 + b / 16) ∷ input)
        (at_bits output buffer 0)
      ≡ decode_loop input
          (at_bits (output ++ a ∷ []) (next (next buffer (a / 4)) (a % 4 * 16 + b / 16)) 4)
unfolding decode_loop push_bits
two_characters a b buffer output input ha hb =
    rw
      (
        step (a / 4) (at_bits output buffer 0) (omega arith) refl,
        step (a % 4 * 16 + b / 16) (at_bits output (next buffer (a / 4)) 6) (omega arith) refl,
        first_byte buffer a b ha hb,
      )
      refl

third_character :
    (a b c buffer : ℕ) (output input : List ℕ)
    → a < 256
    → b < 256
    → c < 256
    → decode_loop
        (character_of (b % 16 * 4 + c / 64) ∷ input)
        (at_bits output (next buffer (a % 4 * 16 + b / 16)) 4)
      ≡ decode_loop input (
          at_bits
            (output ++ b ∷ [])
            (next (next buffer (a % 4 * 16 + b / 16)) (b % 16 * 4 + c / 64))
            2)
unfolding decode_loop push_bits
third_character a b c buffer output input ha hb hc =
    rw
      (
        step (b % 16 * 4 + c / 64) (at_bits output (next buffer (a % 4 * 16 + b / 16)) 4)
            (omega arith) refl,
        second_byte buffer a b c ha hb hc,
      )
      refl

fourth_character :
    (b c buffer : ℕ) (output input : List ℕ)
    → b < 256
    → c < 256
    → decode_loop
        (character_of (c % 64) ∷ input)
        (at_bits output (next buffer (b % 16 * 4 + c / 64)) 2)
      ≡ decode_loop input
          (at_bits (output ++ c ∷ []) (next (next buffer (b % 16 * 4 + c / 64)) (c % 64)) 0)
unfolding decode_loop push_bits
fourth_character b c buffer output input hb hc =
    rw
      (
        step (c % 64) (at_bits output (next buffer (b % 16 * 4 + c / 64)) 2) (omega arith) refl,
        third_byte buffer b c hb hc,
      )
      refl

-- What the loop returns.
abbrev decoded : List ℕ → Decoder → Outcome (List ℕ)
decoded input d = decode_loop input d >>= λ d. ok d.output

decoded_end : (d : Decoder) → decoded [] d ≡ ok d.output
unfolding decode_loop
decoded_end d = refl

decoded_padding : (d : Decoder) → decoded (b'=' ∷ []) d ≡ ok d.output
unfolding decode_loop
decoded_padding d = refl

decoded_padding_two : (d : Decoder) → decoded (b'=' ∷ b'=' ∷ []) d ≡ ok d.output
unfolding decode_loop
decoded_padding_two d = refl

append_three :
    (output : List ℕ) (a b c : ℕ) (bytes : List ℕ)
    → (((output ++ a ∷ []) ++ b ∷ []) ++ c ∷ []) ++ bytes ≡ output ++ a ∷ b ∷ c ∷ bytes
append_three output a b c bytes = simp append_assoc

decoded-encode :
    (bytes output : List ℕ) (buffer : ℕ)
    → All (λ b. b < 256) bytes
    → decoded (encode bytes) (at_bits output buffer 0) ≡ ok (output ++ bytes)
unfolding encode
decoded-encode [] output buffer all =
    decoded_end (at_bits output buffer 0) ∙ ap ok (sym (append-nil output))
decoded-encode (a ∷ []) output buffer (ha, _) =
    let low : a % 4 * 16 ≡ a % 4 * 16 + 0 / 16 = omega arith in
    rw (low, two_characters a 0 buffer output (b'=' ∷ b'=' ∷ []) ha (omega arith))
      (decoded_padding_two _)
decoded-encode (a ∷ b ∷ []) output buffer (ha, (hb, _)) =
    let low : b % 16 * 4 ≡ b % 16 * 4 + 0 / 64 = omega arith in
    rw
      (
        two_characters a b buffer output _ ha hb,
        low,
        third_character a b 0 (next buffer (a / 4)) (output ++ a ∷ []) (b'=' ∷ []) ha hb
            (omega arith),
      )
      (decoded_padding _ ∙ ap ok (append_assoc output (a ∷ []) (b ∷ [])))
decoded-encode (a ∷ b ∷ c ∷ bytes) output buffer (ha, (hb, (hc, all))) =
    rw
      (
        two_characters a b buffer output _ ha hb,
        third_character a b c (next buffer (a / 4)) (output ++ a ∷ []) _ ha hb hc,
        fourth_character b c _ ((output ++ a ∷ []) ++ b ∷ []) _ hb hc,
      )
      (decoded-encode bytes (((output ++ a ∷ []) ++ b ∷ []) ++ c ∷ []) _ all
        ∙ ap ok (append_three output a b c bytes))

decode_base64-decoded : (input : List ℕ) → decode_base64 input ≡ decoded input new_decoder
unfolding decode_base64
decode_base64-decoded input = refl

-- Bytes that are written in the base64 of RFC 4648 are read back by `decode_base64`, wherever blanks and
-- line ends stand in the text.
pub decode_base64-encode :
    (bytes input : List ℕ)
    → All (λ b. b < 256) bytes
    → without_blanks input ≡ encode bytes
    → decode_base64 input ≡ ok bytes
decode_base64-encode bytes input all written =
    decode_base64-decoded input
    ∙ ap (λ (result : Outcome Decoder). result >>= λ d. ok d.output)
        (sym (decode_loop-blanks input new_decoder)
          ∙ ap (λ text. decode_loop text new_decoder) written)
    ∙ decoded-encode bytes [] 0 all
