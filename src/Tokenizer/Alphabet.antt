-- ===== src/Tokenizer/Alphabet.antt =====
-- The symbols of the byte alphabet are read back as their bytes, alone and in a row.
use Prim.Native.Nat.{bit_and}
use kraken_infer.Base.{
  ℕ, zero, suc, ◌+◌, ◌*◌, ◌<◌, ◌≡◌, refl, ap, and-left, and-right, ==_iff, Bool, true, false, not,
  ◌&&◌, List, [], ◌∷◌, ◌++◌, Option, none, some, ◌==◌, get_or, length, arith,
}
use kraken_infer.Tokenizer.Utf8.{CodepointSpan, two_bytes, front, spans_from}
use kraken_infer.Tokenizer.Bytes.{
  build_byte_encoder, byte_encoder, build_byte_decoder, find_byte, byte_decoder,
}

abbrev found : ℕ → Option ℕ → Bool
found byte none = false
found byte (some b) = b == byte

-- A symbol of one byte below 128, or of two bytes that begin and go on a sequence; and its code point
-- stands for the byte.
abbrev is_symbol : List (ℕ × ℕ) → ℕ → List ℕ → Bool
unfolding find_byte
is_symbol decoder byte [] = false
is_symbol decoder byte (c ∷ []) = bit_and c 0x80 == 0 && found byte (find_byte c decoder)
is_symbol decoder byte (c0 ∷ c1 ∷ []) =
    not (bit_and c0 0x80 == 0)
    && (bit_and c0 0xE0 == 0xC0
        && (bit_and c1 0xC0 == 0x80
            && found byte (find_byte (bit_and c0 0x1F * 64 + bit_and c1 0x3F) decoder)))
is_symbol decoder byte (c0 ∷ c1 ∷ c2 ∷ more) = false

are_symbols : List (ℕ × ℕ) → ℕ → List (List ℕ) → Bool
unfolding is_symbol
are_symbols decoder byte [] = true
are_symbols decoder byte (symbol ∷ symbols) =
    is_symbol decoder byte symbol && are_symbols decoder (byte + 1) symbols

symbols_table : are_symbols build_byte_decoder 0 build_byte_encoder ≡ true
unfolding are_symbols build_byte_decoder
symbols_table = refl

are_symbols-get_or :
    (decoder : List (ℕ × ℕ)) (byte i n : ℕ) (symbols : List (List ℕ))
    → n ≡ byte + i
    → are_symbols decoder byte symbols ≡ true
    → i < length symbols
    → is_symbol decoder n (get_or symbols i []) ≡ true
unfolding are_symbols
are_symbols-get_or decoder byte i n [] same all less = absurd (omega arith)
are_symbols-get_or decoder byte zero n (symbol ∷ symbols) same all less =
    let here : byte ≡ n = omega (arith, same) in
    rw (← here) (and-left (is_symbol decoder byte symbol) _ all)
are_symbols-get_or decoder byte (suc i) n (symbol ∷ symbols) same all less =
    are_symbols-get_or decoder (byte + 1) i n symbols (omega (arith, same))
      (and-right (is_symbol decoder byte symbol) _ all) (omega arith)

length-build_byte_encoder : length build_byte_encoder ≡ 256
unfolding build_byte_encoder
length-build_byte_encoder = refl

byte_encoder-is_symbol :
    (byte : ℕ) → byte < 256 → is_symbol build_byte_decoder byte (byte_encoder byte) ≡ true
unfolding byte_encoder
byte_encoder-is_symbol byte less =
    are_symbols-get_or build_byte_decoder 0 byte byte build_byte_encoder (omega arith) symbols_table
      (omega (arith, length-build_byte_encoder))

found-some : (byte : ℕ) (o : Option ℕ) → found byte o ≡ true → o ≡ some byte
found-some byte none e = absurd (cc)
found-some byte (some b) e = ap some ((==_iff b byte).0 e)

abbrev span_at : ℕ → ℕ → ℕ → CodepointSpan
span_at codepoint offset count = record {
  codepoint = codepoint;
  byte_offset = offset;
  byte_length = count;
}

not-true : (b : Bool) → not b ≡ true → b ≡ false
not-true b e = ground arith

front_two :
    (c0 c1 : ℕ) (rest : List ℕ)
    → (bit_and c0 0x80 == 0) ≡ false
    → (bit_and c0 0xE0 == 0xC0) ≡ true
    → (bit_and c1 0xC0 == 0x80) ≡ true
    → front c0 (c1 ∷ rest) ≡ (bit_and c0 0x1F * 64 + bit_and c1 0x3F, 2)
unfolding front two_bytes
front_two c0 c1 rest wide first second = rw (wide, first, second) refl

-- The symbol at the front of a text is one span, of a code point that stands for the byte.
abbrev pub IsSpan : ℕ → ℕ → List ℕ → List ℕ → Type 0
IsSpan byte offset symbol rest =
    (codepoint : ℕ) × (byte_decoder codepoint ≡ some byte)
    × (spans_from 0 offset (symbol ++ rest)
        ≡ span_at codepoint offset (length symbol) ∷ spans_from 0 (offset + length symbol) rest)

is_symbol-IsSpan :
    (byte offset : ℕ) (symbol rest : List ℕ)
    → is_symbol build_byte_decoder byte symbol ≡ true
    → IsSpan byte offset symbol rest
unfolding spans_from is_symbol byte_decoder
is_symbol-IsSpan byte offset [] rest e = absurd (cc)
is_symbol-IsSpan byte offset (c ∷ []) rest e =
    let ascii = and-left (bit_and c 0x80 == 0) (found byte (find_byte c build_byte_decoder)) e in
    let entry = and-right (bit_and c 0x80 == 0) (found byte (find_byte c build_byte_decoder)) e in
    (c, found-some byte _ entry, rw ascii refl)
is_symbol-IsSpan byte offset (c0 ∷ c1 ∷ []) rest e =
    let codepoint = bit_and c0 0x1F * 64 + bit_and c1 0x3F in
    let entry = found byte (find_byte codepoint build_byte_decoder) in
    let begins = bit_and c0 0xE0 == 0xC0 in
    let continues = bit_and c1 0xC0 == 0x80 in
    let more = and-left (not (bit_and c0 0x80 == 0)) (begins && (continues && entry)) e in
    let two = and-right (not (bit_and c0 0x80 == 0)) (begins && (continues && entry)) e in
    let first = and-left begins (continues && entry) two in
    let others = and-right begins (continues && entry) two in
    let second = and-left continues entry others in
    let wide : (bit_and c0 0x80 == 0) ≡ false = not-true (bit_and c0 0x80 == 0) more in
    let fronted = front_two c0 c1 rest wide first second in
    let step : offset + 1 + 1 ≡ offset + 2 = omega arith in
    (codepoint, found-some byte _ (and-right continues entry others), (rw (fronted, step) refl))
is_symbol-IsSpan byte offset (c0 ∷ c1 ∷ c2 ∷ more) rest e = absurd (cc)

pub byte_encoder-IsSpan :
    (byte offset : ℕ) (rest : List ℕ) → byte < 256 → IsSpan byte offset (byte_encoder byte) rest
byte_encoder-IsSpan byte offset rest less =
    is_symbol-IsSpan byte offset (byte_encoder byte) rest (byte_encoder-is_symbol byte less)
