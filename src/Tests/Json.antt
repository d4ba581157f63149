-- ===== src/Tests/Json.antt =====
-- Strings, escapes and numbers.
use kraken_infer.Base.{
  true, false, ℕ, suc, ◌+◌, ◌*◌, ◌≡◌, refl, List, [], ◌∷◌, ◌++◌, length, map, u64_max, leb,
  if◌then◌else◌, arith,
}
use kraken_infer.Json.Monad.{exhausted, scanned, fails}
use kraken_infer.Json.Scanner.{parse_string, parse_uint, parse_uint_array, append_escape}
use kraken_infer.Json.Skip.{skip_value, skip_items, skip_members}
use kraken_infer.Json.Ends.{Within}
use kraken_infer.Json.Values.{scanner_total}
use kraken_infer.Json.Decimal.{digit_char, decimal, parse_uint-decimal}
use kraken_infer.Json.RoundTrip.{quote, escape_string, parse_string-quote}
use kraken_infer.Json.Unicode.{hex_char, Appends, append_escape-Appends}

program : Unit {0}
unfolding parse_string parse_uint parse_uint_array skip_value skip_items skip_members append_escape
    escape_string decimal
program = tt

-- `[1, 20]`, then `x`.
array_read :
    parse_uint_array (91 ∷ 49 ∷ 44 ∷ 32 ∷ 50 ∷ 48 ∷ 93 ∷ 120 ∷ []) ≡ scanned (1 ∷ 20 ∷ [], 120 ∷ [])
unfolding program
array_read = refl

-- `{"a":[1,{}]}`.
value_skipped :
    skip_value 30 (123 ∷ 34 ∷ 97 ∷ 34 ∷ 58 ∷ 91 ∷ 49 ∷ 44 ∷ 123 ∷ 125 ∷ 93 ∷ 125 ∷ [])
    ≡ scanned (tt, [])
unfolding program
value_skipped = refl

-- `[[1]]` needs three calls, one for each level: with two the call stack is full.
nested_skipped : skip_value 3 (91 ∷ 91 ∷ 49 ∷ 93 ∷ 93 ∷ []) ≡ scanned (tt, [])
unfolding program
nested_skipped = refl

nested_too_deep : skip_value 2 (91 ∷ 91 ∷ 49 ∷ 93 ∷ 93 ∷ []) ≡ exhausted
unfolding program
nested_too_deep = refl

abbrev input : List ℕ
input = 91 ∷ 49 ∷ 93 ∷ []

scanner_total_example :
    Within (length input) (parse_string input)
    × Within (length input) (parse_uint input)
    × Within (length input) (parse_uint_array input)
    × Within (suc (length input)) (skip_value 7 input)
scanner_total_example = scanner_total 7 input (omega arith)

parse_uint-decimal_example : parse_uint (map digit_char (4 ∷ 2 ∷ []) ++ 44 ∷ []) ≡ (
    if leb (decimal 0 (4 ∷ 2 ∷ [])) u64_max
    then scanned (decimal 0 (4 ∷ 2 ∷ []), 44 ∷ [])
    else fails)
unfolding program
parse_uint-decimal_example = parse_uint-decimal 4 (2 ∷ []) (44 ∷ []) (omega arith) refl

parse_string-quote_example :
    parse_string (quote (65 ∷ 34 ∷ 92 ∷ []) ++ 58 ∷ []) ≡ scanned (65 ∷ 34 ∷ 92 ∷ [], 58 ∷ [])
parse_string-quote_example = parse_string-quote (65 ∷ 34 ∷ 92 ∷ []) (58 ∷ [])

append_escape-Appends_example :
    (extended : List ℕ) × (append_escape [] b'u'
        (hex_char true 2 ∷ hex_char true 0 ∷ hex_char true 10 ∷ hex_char false 12 ∷ [])
      ≡ scanned (extended, []))
    × Appends [] (((2 * 16 + 0) * 16 + 10) * 16 + 12) extended
append_escape-Appends_example =
    append_escape-Appends 2 0 10 12 true true true false [] [] (omega arith) (omega arith)
      (omega arith) (omega arith)
