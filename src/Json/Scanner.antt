-- ===== src/Json/Scanner.antt =====
-- Whitespace, single characters, strings, numbers and arrays of numbers.
use kraken_infer.Base.{
  ℕ, zero, suc, ◌+◌, ◌-◌, ◌*◌, ◌/◌, ◌%◌, Bool, true, false, ◌&&◌, ◌||◌, List, [], ◌∷◌, ◌++◌, wrap,
  u64_max, ltb, leb, ◌==◌, if◌then◌else◌, length, is_empty,
}
use Prim.Native.Nat.{bit_or}
use kraken_infer.Json.Monad.{Scanner, scanned, fails, return, fail, run_out, ◌>>=◌, ◌>>◌}

unfoldable pub is_space : ℕ → Bool
is_space ch = ch == b' ' || ch == b'\n' || ch == b'\r' || ch == b'\t'

-- What `skip_ws` leaves unread.
unfoldable pub skipped_ws : List ℕ → List ℕ
unfolding is_space
skipped_ws [] = []
skipped_ws (ch ∷ input) = if is_space ch then skipped_ws input else ch ∷ input

unfoldable pub skip_ws : Scanner (Unit {0})
unfolding skipped_ws
skip_ws input = scanned (tt, skipped_ws input)

-- Whether nothing is unread; `position_ == input_.size()`.
abbrev pub at_end : Scanner Bool
at_end input = scanned (is_empty input, input)

unfoldable pub eof : Scanner Bool
unfolding skip_ws
eof = do skip_ws; at_end

-- The character at the position, and a move behind it.
abbrev pub advance : Scanner ℕ
advance [] = fails
advance (ch ∷ input) = scanned (ch, input)

unfoldable pub expect_here : ℕ → Scanner (Unit {0})
expect_here expected [] = fails
expect_here expected (ch ∷ input) = if ch == expected then scanned (tt, input) else fails

unfoldable pub expect : ℕ → Scanner (Unit {0})
unfolding skip_ws expect_here
expect expected = do skip_ws; expect_here expected

unfoldable pub consume_here : ℕ → Scanner Bool
consume_here expected [] = scanned (false, [])
consume_here expected (ch ∷ input) =
    if ch == expected then scanned (true, input) else scanned (false, ch ∷ input)

unfoldable pub consume : ℕ → Scanner Bool
unfolding skip_ws consume_here
consume expected = do skip_ws; consume_here expected

unfoldable pub is_digit : ℕ → Bool
is_digit ch = leb b'0' ch && leb ch b'9'

-- The value of a hexadecimal digit.
unfoldable pub hex_digit : ℕ → Scanner ℕ
unfolding is_digit
hex_digit ch =
    if is_digit ch
    then return (ch - b'0')
    else if leb b'a' ch && leb ch b'f'
    then return (ch - b'a' + 10)
    else if leb b'A' ch && leb ch b'F'
    then return (ch - b'A' + 10)
    else fail

-- The loop of `append_unicode_escape`, with the rounds that are left.
unfoldable pub hex_digits : ℕ → ℕ → Scanner ℕ
unfolding hex_digit
hex_digits zero codepoint = return codepoint
hex_digits (suc rounds) codepoint = do
  ch ← advance
  digit ← hex_digit ch
  hex_digits rounds (codepoint * 16 + digit)

-- `codepoint & 0x3FU` is the remainder by 64, and a shift to the right is a quotient.
unfoldable pub append_utf8 : List ℕ → ℕ → List ℕ
append_utf8 result codepoint =
    if leb codepoint 0x7F
    then result ++ codepoint ∷ []
    else if leb codepoint 0x7FF
    then result ++ bit_or 0xC0 (codepoint / 64) ∷ bit_or 0x80 (codepoint % 64) ∷ []
    else result
      ++ bit_or 0xE0 (codepoint / 4096)
        ∷ bit_or 0x80 (codepoint / 64 % 64)
        ∷ bit_or 0x80 (codepoint % 64)
        ∷ []

unfoldable pub unicode_digits : Scanner ℕ
unfolding hex_digits
unicode_digits input = if ltb (length input) 4 then fails else hex_digits 4 0 input

unfoldable pub append_unicode_escape : List ℕ → Scanner (List ℕ)
unfolding unicode_digits append_utf8
append_unicode_escape result = do codepoint ← unicode_digits; return (append_utf8 result codepoint)

-- The switch on the character behind a backslash.
unfoldable pub append_escape : List ℕ → ℕ → Scanner (List ℕ)
unfolding append_unicode_escape
append_escape result escaped =
    if escaped == b'"' || escaped == b'\\' || escaped == b'/'
    then return (result ++ escaped ∷ [])
    else if escaped == b'b'
    then return (result ++ 8 ∷ [])
    else if escaped == b'f'
    then return (result ++ 12 ∷ [])
    else if escaped == b'n'
    then return (result ++ 10 ∷ [])
    else if escaped == b'r'
    then return (result ++ 13 ∷ [])
    else if escaped == b't'
    then return (result ++ 9 ∷ [])
    else if escaped == b'u'
    then append_unicode_escape result
    else fail

-- One character of a string that is no quote: itself, or what its escape stands for.
unfoldable pub append_character : List ℕ → ℕ → Scanner (List ℕ)
unfolding append_escape
append_character result ch =
    if ch == b'\\' then advance >>= append_escape result else return (result ++ ch ∷ [])

-- The loop of `parse_string`.
unfoldable pub string_loop : ℕ → List ℕ → Scanner (List ℕ)
unfolding append_character
string_loop zero result = run_out
string_loop (suc fuel) result = do
  ch ← advance
  let rest = append_character result ch >>= string_loop fuel
  if ch == b'"' then return result else rest

-- Each round reads at least one character.
unfoldable pub string_body : Scanner (List ℕ)
unfolding string_loop
string_body input = string_loop (suc (length input)) [] input

unfoldable pub parse_string : Scanner (List ℕ)
unfolding expect string_body
parse_string = do expect b'"'; string_body

-- The loop of `parse_uint`.
unfoldable pub uint_loop : ℕ → Scanner ℕ
unfolding is_digit
uint_loop value [] = scanned (value, [])
uint_loop value (ch ∷ input) =
    let digit = ch - b'0' in
    let rest = uint_loop (wrap (value * 10 + digit)) input in
    if is_digit ch
    then if ltb ((u64_max - digit) / 10) value then fails else rest
    else scanned (value, ch ∷ input)

unfoldable pub starts_digit : List ℕ → Bool
unfolding is_digit
starts_digit [] = false
starts_digit (ch ∷ input) = is_digit ch

unfoldable pub uint_here : Scanner ℕ
unfolding starts_digit uint_loop
uint_here input = if starts_digit input then uint_loop 0 input else fails

unfoldable pub parse_uint : Scanner ℕ
unfolding skip_ws uint_here
parse_uint = do skip_ws; uint_here

-- The loop of `parse_uint_array`.
unfoldable pub uint_array_loop : ℕ → Scanner (List ℕ)
unfolding parse_uint consume expect
uint_array_loop zero = run_out
uint_array_loop (suc fuel) = do
  value ← parse_uint
  closed ← consume b']'
  let rest = do expect b','; values ← uint_array_loop fuel; return (value ∷ values)
  if closed then return (value ∷ []) else rest

unfoldable pub uint_array_items : Scanner (List ℕ)
unfolding uint_array_loop
uint_array_items input = uint_array_loop (suc (length input)) input

unfoldable pub parse_uint_array : Scanner (List ℕ)
unfolding expect consume uint_array_items
parse_uint_array = do
  expect b'['
  closed ← consume b']'
  if closed then return [] else uint_array_items
