-- ===== src/Base64/Decode.antt =====
-- `decode_base64`, with its locals as a record. Bytes and characters are numbers below 256.
use kraken_infer.Base.{
  ℕ, ◌+◌, ◌-◌, ◌*◌, ◌/◌, ◌%◌, ◌^◌, Bool, true, false, ◌&&◌, ◌||◌, List, [], ◌∷◌, ◌++◌, Option, none,
  some, leb, ◌==◌, if◌then◌else◌, Outcome, ok, err, invalid_argument, ◌>>=◌,
}

-- `none` is the source's `-1`.
unfoldable pub base64_value : ℕ → Option ℕ
base64_value ch =
    if leb b'A' ch && leb ch b'Z'
    then some (ch - b'A')
    else if leb b'a' ch && leb ch b'z'
    then some (ch - b'a' + 26)
    else if leb b'0' ch && leb ch b'9'
    then some (ch - b'0' + 52)
    else if ch == b'+'
    then some 62
    else if ch == b'/'
    then some 63
    else none

pub record Decoder : Type 0 where
  pub output : List ℕ
  pub buffer : ℕ
  pub bits : ℕ
  pub seen_padding : Bool

abbrev pub new_decoder : Decoder
new_decoder = record { output = []; buffer = 0; bits = 0; seen_padding = false }

unfoldable pub is_blank : ℕ → Bool
is_blank ch = ch == b'\r' || ch == b'\n' || ch == b'\t' || ch == b' '

-- Six more bits. The buffer has 32 bits, and its low six are zero behind the shift, where `|` adds.
unfoldable pub push_bits : ℕ → Decoder → Decoder
push_bits value d =
    let buffer = d.buffer * 64 % 2 ^ 32 + value in
    let bits = d.bits + 6 in
    if leb 8 bits
    then record d {
      buffer = buffer;
      bits = bits - 8;
      output = d.output ++ buffer / 2 ^ (bits - 8) % 256 ∷ [];
    }
    else record d { buffer = buffer; bits = bits }

unfoldable pub decode_value : Option ℕ → Decoder → Outcome Decoder
unfolding push_bits
decode_value none d = err invalid_argument
decode_value (some value) d = ok (push_bits value d)

-- The body of the loop.
unfoldable pub decode_character : ℕ → Decoder → Outcome Decoder
unfolding is_blank base64_value decode_value
decode_character ch d =
    if is_blank ch
    then ok d
    else if ch == b'='
    then ok (record d { seen_padding = true })
    else if d.seen_padding
    then err invalid_argument
    else decode_value (base64_value ch) d

unfoldable pub decode_loop : List ℕ → Decoder → Outcome Decoder
unfolding decode_character
decode_loop [] d = ok d
decode_loop (ch ∷ input) d = decode_character ch d >>= decode_loop input

unfoldable pub decode_base64 : List ℕ → Outcome (List ℕ)
unfolding decode_loop
decode_base64 input = decode_loop input new_decoder >>= λ d. ok d.output
