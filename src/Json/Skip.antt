-- ===== src/Json/Skip.antt =====
-- `skip_value`: any JSON value, whose content does not matter.
use kraken_infer.Base.{
  ℕ, zero, suc, Bool, ◌||◌, List, [], ◌∷◌, ◌==◌, if◌then◌else◌, length, drop, starts_with,
}
use kraken_infer.Json.Monad.{Scanner, scanned, fails, return, run_out, ◌>>=◌, ◌>>◌}
use kraken_infer.Json.Scanner.{is_digit, skip_ws, expect, consume, parse_string}

-- The character at the position, which stays.
abbrev pub peek : Scanner ℕ
peek [] = fails
peek (ch ∷ input) = scanned (ch, ch ∷ input)

unfoldable pub is_number_character : ℕ → Bool
unfolding is_digit
is_number_character ch =
    is_digit ch || ch == b'.' || ch == b'e' || ch == b'E' || ch == b'+' || ch == b'-'

-- What the loop over a number leaves.
unfoldable pub skipped_number : List ℕ → List ℕ
unfolding is_number_character
skipped_number [] = []
skipped_number (ch ∷ input) = if is_number_character ch then skipped_number input else ch ∷ input

-- A minus at the front is a character of the number too, so the loop skips it as well.
unfoldable pub skip_number : Scanner (Unit {0})
unfolding skipped_number
skip_number [] = scanned (tt, [])
skip_number (ch ∷ input) =
    scanned (tt, if ch == b'-' then skipped_number input else skipped_number (ch ∷ input))

-- `true`, `false` and `null`.
abbrev pub true_word : List ℕ
true_word = b't' ∷ b'r' ∷ b'u' ∷ b'e' ∷ []

abbrev pub false_word : List ℕ
false_word = b'f' ∷ b'a' ∷ b'l' ∷ b's' ∷ b'e' ∷ []

abbrev pub null_word : List ℕ
null_word = b'n' ∷ b'u' ∷ b'l' ∷ b'l' ∷ []

unfoldable pub skip_word : Scanner (Unit {0})
unfolding starts_with
skip_word input =
    if starts_with input true_word
    then scanned (tt, drop 4 input)
    else if starts_with input false_word
    then scanned (tt, drop 5 input)
    else if starts_with input null_word
    then scanned (tt, drop 4 input)
    else fails

-- The branches on the first character.
unfoldable pub skip_kind : ℕ → Scanner (Unit {0}) → Scanner (Unit {0}) → Scanner (Unit {0})
unfolding parse_string skip_number skip_word is_digit
skip_kind ch members items =
    if ch == b'"'
    then (parse_string >> return tt)
    else if ch == b'{'
    then members
    else if ch == b'['
    then items
    else if is_digit ch || ch == b'-'
    then skip_number
    else skip_word

-- The loop ends at the closing character, or goes on behind a comma.
unfoldable pub close_or : ℕ → Scanner (Unit {0}) → Scanner (Unit {0})
unfolding consume
close_or closing rest = do closed ← consume closing; if closed then return tt else rest

-- The loop over the members of an object, where `value` is the call of `skip_value`. Running out of
-- fuel never happens with more of it than bytes.
unfoldable pub skip_members : Scanner (Unit {0}) → ℕ → Scanner (Unit {0})
unfolding expect parse_string close_or
skip_members value zero = run_out
skip_members value (suc fuel) = do
  parse_string
  expect b':'
  value
  close_or b'}' (expect b',' >> skip_members value fuel)

-- The loop over the items of an array.
unfoldable pub skip_items : Scanner (Unit {0}) → ℕ → Scanner (Unit {0})
unfolding expect close_or
skip_items value zero = run_out
skip_items value (suc fuel) = do value; close_or b']' (expect b',' >> skip_items value fuel)

-- An object and an array behind their opening character.
abbrev pub members_of : Scanner (Unit {0}) → Scanner (Unit {0})
members_of value input = skip_members value (suc (length input)) input

abbrev pub items_of : Scanner (Unit {0}) → Scanner (Unit {0})
items_of value input = skip_items value (suc (length input)) input

-- The source calls itself for each level of nesting, with no limit of its own: `stack` is the number
-- of such calls that the call stack has room for, and a deeper value runs out of it.
unfoldable pub skip_value : (stack : ℕ) → Scanner (Unit {0})
unfolding skip_ws expect skip_kind close_or skip_members skip_items
skip_value zero = run_out
skip_value (suc stack) = do
  skip_ws
  ch ← peek
  skip_kind ch (expect b'{' >> close_or b'}' (members_of (skip_value stack)))
      (expect b'[' >> close_or b']' (items_of (skip_value stack)))
