-- ===== src/Json/RoundTrip.antt =====
-- A string that is written as a JSON string is read back.
use kraken_infer.Base.{
  ℕ, zero, suc, ◌≤◌, ◌<◌, ◌≡◌, refl, sym, ap, ◌∙◌, inl, inr, Bool, true, false, ◌||◌, List, [], ◌∷◌,
  ◌++◌, append_assoc, append-nil, length, length-append, if◌then◌else◌, if_then, if_else, ◌==◌,
  Bool-cases, arith,
}
use kraken_infer.Json.Monad.{Scanner, scanned, ◌>>=◌}
use kraken_infer.Json.Scanner.{
  append_escape, append_character, string_loop, string_body, parse_string,
}

-- A text as a JSON string: quotes and backslashes are escaped.
unfoldable pub escape_byte : ℕ → List ℕ
escape_byte c = if c == b'"' || c == b'\\' then b'\\' ∷ c ∷ [] else c ∷ []

unfoldable pub escape_string : List ℕ → List ℕ
unfolding escape_byte
escape_string [] = []
escape_string (c ∷ text) = escape_byte c ++ escape_string text

abbrev pub quote : List ℕ → List ℕ
quote text = b'"' ∷ (escape_string text ++ b'"' ∷ [])

-- The rounds of the loop: the closing quote, a character that stands for itself, and an escaped one.
loop_closed :
    (fuel : ℕ) (result rest : List ℕ)
    → string_loop (suc fuel) result (b'"' ∷ rest) ≡ scanned (result, rest)
unfolding string_loop
loop_closed fuel result rest = refl

or_false-left : (a b : Bool) → (a || b) ≡ false → a ≡ false
or_false-left a b e = ground arith

or_false-right : (a b : Bool) → (a || b) ≡ false → b ≡ false
or_false-right a b e = ground arith

or_true-left : (a b c : Bool) → (a || b) ≡ true → (a || b || c) ≡ true
or_true-left a b c e = ground arith

loop_normal :
    (fuel c : ℕ) (result input : List ℕ)
    → (c == b'"' || c == b'\\') ≡ false
    → string_loop (suc fuel) result (c ∷ input) ≡ string_loop fuel (result ++ c ∷ []) input
unfolding string_loop append_character
loop_normal fuel c result input normal =
    rw (or_false-left (c == b'"') _ normal, or_false-right (c == b'"') _ normal)

pub bind_scanned :
    {A B : Type 0} (m : Scanner A) (f : A → Scanner B) (input : List ℕ) {a : A} {rest : List ℕ}
    → m input ≡ scanned (a, rest)
    → (m >>= f) input ≡ f a rest
bind_scanned m f input e = rw (e, ◌>>=◌)

append_escape_special :
    (c : ℕ) (result input : List ℕ)
    → (c == b'"' || c == b'\\') ≡ true
    → append_escape result c input ≡ scanned (result ++ c ∷ [], input)
unfolding append_escape
append_escape_special c result input special =
    ap (λ (m : Scanner (List ℕ)). m input)
      (if_then _ _ _ (or_true-left (c == b'"') (c == b'\\') (c == b'/') special))

loop_special :
    (fuel c : ℕ) (result input : List ℕ)
    → (c == b'"' || c == b'\\') ≡ true
    → string_loop (suc fuel) result (b'\\' ∷ c ∷ input) ≡ string_loop fuel (result ++ c ∷ []) input
unfolding string_loop append_character
loop_special fuel c result input special =
    bind_scanned (append_escape result c) (string_loop fuel) input
      (append_escape_special c result input special)

string_loop-escape :
    (fuel : ℕ) (result text rest : List ℕ)
    → length text < fuel
    → string_loop fuel result (escape_string text ++ b'"' ∷ rest) ≡ scanned (result ++ text, rest)
unfolding escape_string
string_loop-escape zero result text rest enough = absurd (omega arith)
string_loop-escape (suc fuel) result [] rest enough =
    loop_closed fuel result rest ∙ ap (λ t. scanned (t, rest)) (sym (append-nil result))
string_loop-escape (suc fuel) result (c ∷ text) rest enough =
    let more = escape_string text ++ b'"' ∷ rest in
    let next =
      string_loop-escape fuel (result ++ c ∷ []) text rest (omega arith)
      ∙ ap (λ t. scanned (t, rest)) (append_assoc result (c ∷ []) text) in
    elim (Bool-cases (c == b'"' || c == b'\\')) [
      | inl special ↦
          ap (λ e. string_loop (suc fuel) result ((e ++ escape_string text) ++ b'"' ∷ rest))
            (if_then _ _ _ special)
          ∙ loop_special fuel c result more special
          ∙ next
      | inr normal ↦
          ap (λ e. string_loop (suc fuel) result ((e ++ escape_string text) ++ b'"' ∷ rest))
            (if_else _ _ _ normal)
          ∙ loop_normal fuel c result more normal
          ∙ next
    ]

escape_string-le : (text : List ℕ) → length text ≤ length (escape_string text)
unfolding escape_string
escape_string-le [] = omega arith
escape_string-le (c ∷ text) =
    ground (arith, escape_string-le text, length-append {0} (escape_byte c) (escape_string text))

-- Whatever the bytes of a text are, `parse_string` reads it back from its JSON string, in which quotes and
-- backslashes are escaped, and leaves what follows.
pub parse_string-quote :
    (text rest : List ℕ) → parse_string (quote text ++ rest) ≡ scanned (text, rest)
unfolding parse_string string_body
parse_string-quote text rest =
    let input = escape_string text ++ b'"' ∷ rest in
    ap string_body (append_assoc (escape_string text) (b'"' ∷ []) rest)
    ∙ string_loop-escape (suc (length input)) [] text rest
        (omega (arith, escape_string-le text, length-append {0} (escape_string text) (b'"' ∷ rest)))
