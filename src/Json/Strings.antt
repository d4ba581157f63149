-- ===== src/Json/Strings.antt =====
-- Strings: each call returns or throws, and takes something off the input.
use kraken_infer.Base.{
  ℕ, zero, suc, ◌+◌, ◌*◌, ◌<◌, inl, inr, List, [], ◌∷◌, ◌++◌, ltb, ◌==◌, length, Bool-cases, arith,
}
use kraken_infer.Json.Scanner.{
  advance, expect, hex_digit, hex_digits, append_utf8, unicode_digits, append_unicode_escape,
  append_escape, append_character, string_loop, string_body, parse_string,
}
use kraken_infer.Json.Ends.{
  Within, Within-mono, Within-bind, Keeps, Shrinks, Keeps-Keeps, Shrinks-Keeps, Keeps-return,
  Keeps-fail, Keeps-if, Keeps-of_Shrinks, advance-Shrinks, expect-Shrinks,
}

hex_digit-Keeps : (ch : ℕ) → Keeps (hex_digit ch)
unfolding hex_digit
hex_digit-Keeps ch = search (Keeps-if, Keeps-return, Keeps-fail)

hex_digits-Keeps : (rounds codepoint : ℕ) → Keeps (hex_digits rounds codepoint)
unfolding hex_digits
hex_digits-Keeps zero codepoint = Keeps-return codepoint
hex_digits-Keeps (suc rounds) codepoint =
    Keeps-Keeps advance _ (Keeps-of_Shrinks advance advance-Shrinks) (λ ch.
      Keeps-Keeps (hex_digit ch) _ (hex_digit-Keeps ch)
        (λ digit. hex_digits-Keeps rounds (codepoint * 16 + digit)))

unicode_digits-Keeps : Keeps unicode_digits
unfolding Keeps unicode_digits
unicode_digits-Keeps input = elim (Bool-cases (ltb (length input) 4)) [
  | inl short ↦ rw short tt
  | inr enough ↦ rw enough (hex_digits-Keeps 4 0 input)
]

append_escape-Keeps : (result : List ℕ) (escaped : ℕ) → Keeps (append_escape result escaped)
unfolding append_escape append_unicode_escape
append_escape-Keeps result escaped =
    let unicode =
      Keeps-Keeps unicode_digits _ unicode_digits-Keeps
        (λ codepoint. Keeps-return (append_utf8 result codepoint)) in
    search (Keeps-if, Keeps-return, Keeps-fail, unicode) depth 9

append_character-Keeps : (result : List ℕ) (ch : ℕ) → Keeps (append_character result ch)
unfolding append_character
append_character-Keeps result ch =
    Keeps-if (ch == b'\\') _ _
      (Keeps-Keeps advance (append_escape result) (Keeps-of_Shrinks advance advance-Shrinks)
        (append_escape-Keeps result))
      (Keeps-return (result ++ ch ∷ []))

string_loop-Within :
    (fuel : ℕ) (result input : List ℕ)
    → length input < fuel
    → Within (length input) (string_loop fuel result input)
unfolding Keeps string_loop
string_loop-Within zero result input enough = absurd (omega arith)
string_loop-Within (suc fuel) result [] enough = tt
string_loop-Within (suc fuel) result (ch ∷ input) enough = elim (Bool-cases (ch == b'"')) [
  | inl closed ↦ rw closed (omega arith)
  | inr more ↦ rw more (
      Within-bind (suc (length input)) (suc (length input)) (append_character result ch)
        (string_loop fuel) input (append_character-Keeps result ch input)
        (λ appended rest less.
          Within-mono _ _ (string_loop fuel appended rest) (omega arith)
            (string_loop-Within fuel appended rest (omega arith))))
]

pub parse_string-Shrinks : Shrinks parse_string
unfolding Keeps parse_string string_body
parse_string-Shrinks = Shrinks-Keeps (expect b'"') _ (expect-Shrinks b'"') (λ u input.
    Within-mono _ _ (string_body input) (omega arith)
      (string_loop-Within (suc (length input)) [] input (omega arith)))
