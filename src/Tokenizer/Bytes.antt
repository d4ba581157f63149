-- ===== src/Tokenizer/Bytes.antt =====
-- The byte alphabet: a printable symbol for each byte, and back.
use kraken_infer.Base.{
  ℕ, zero, suc, ◌+◌, Bool, false, ◌||◌, List, [], ◌∷◌, ◌++◌, Option, none, some, map, ◌==◌,
  if◌then◌else◌, get_or,
}
use kraken_infer.Tokenizer.Utf8.{CodepointSpan, append_codepoint_utf8, utf8_codepoint_spans}

-- The bytes from `first` on, `count` of them.
abbrev pub range : ℕ → ℕ → List ℕ
range first zero = []
range first (suc count) = first ∷ range (first + 1) count

-- The first three loops of `build_byte_encoder`.
abbrev pub printable : List ℕ
printable = range 33 94 ++ (range 161 12 ++ range 174 82)

-- `std::find(bytes.begin(), bytes.end(), byte) != bytes.end()`.
unfoldable pub contains : ℕ → List ℕ → Bool
contains byte [] = false
contains byte (b ∷ bytes) = b == byte || contains byte bytes

-- The loop over all bytes: `bytes` with the code points, which it extends by the bytes that are not there.
unfoldable pub add_missing : List ℕ → ℕ → List (ℕ × ℕ) → List (ℕ × ℕ)
unfolding contains
add_missing [] extra pairs = pairs
add_missing (byte ∷ rest) extra pairs =
    let missing = contains byte (map (λ (p : ℕ × ℕ). p.0) pairs) in
    add_missing rest (if missing then extra else extra + 1)
      (if missing then pairs else pairs ++ (byte, 256 + extra) ∷ [])

abbrev pub codepoints : List (ℕ × ℕ)
unfolding add_missing
codepoints = add_missing (range 0 256) 0 (map (λ b. (b, b)) printable)

-- The code point of a byte in such a list; every byte has one.
unfoldable pub codepoint_in : List (ℕ × ℕ) → ℕ → ℕ
codepoint_in [] byte = 0
codepoint_in ((b, codepoint) ∷ pairs) byte =
    if b == byte then codepoint else codepoint_in pairs byte

-- `build_byte_encoder`: the array, by its entries from byte 0 to 255.
unfoldable pub build_byte_encoder : List (List ℕ)
unfolding codepoints codepoint_in append_codepoint_utf8
build_byte_encoder =
    map (λ byte. append_codepoint_utf8 [] (codepoint_in codepoints byte)) (range 0 256)

unfoldable pub byte_encoder : ℕ → List ℕ
unfolding build_byte_encoder
byte_encoder byte = get_or build_byte_encoder byte []

unfoldable pub byte_encoded : List ℕ → List ℕ
byte_encoded [] = []
byte_encoded (ch ∷ text) = byte_encoder ch ++ byte_encoded text

-- The entry of one symbol, if it is one code point.
unfoldable pub decoder_entry : ℕ → List CodepointSpan → List (ℕ × ℕ)
decoder_entry byte (span ∷ []) = (span.codepoint, byte) ∷ []
decoder_entry byte [] = []
decoder_entry byte (span ∷ next ∷ spans) = []

-- `build_byte_decoder`, over the symbols from `byte` on. `find` on the table returns the first entry of
-- a code point, the one that `emplace` keeps.
unfoldable pub decoder_from : ℕ → List (List ℕ) → List (ℕ × ℕ)
unfolding decoder_entry utf8_codepoint_spans
decoder_from byte [] = []
decoder_from byte (symbol ∷ symbols) =
    decoder_entry byte (utf8_codepoint_spans symbol) ++ decoder_from (byte + 1) symbols

unfoldable pub build_byte_decoder : List (ℕ × ℕ)
unfolding decoder_from build_byte_encoder
build_byte_decoder = decoder_from 0 build_byte_encoder

unfoldable pub find_byte : ℕ → List (ℕ × ℕ) → Option ℕ
find_byte codepoint [] = none
find_byte codepoint ((c, byte) ∷ decoder) =
    if c == codepoint then some byte else find_byte codepoint decoder

unfoldable pub byte_decoder : ℕ → Option ℕ
unfolding build_byte_decoder find_byte
byte_decoder codepoint = find_byte codepoint build_byte_decoder
