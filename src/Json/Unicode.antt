-- ===== src/Json/Unicode.antt =====
-- An escape `\uXXXX` appends the UTF-8 bytes of its code point.
use kraken_infer.Base.{
  ℕ, suc, ◌+◌, ◌-◌, ◌*◌, ◌/◌, ◌%◌, ◌≤◌, ◌<◌, ◌≡◌, refl, ap, ◌∙◌, inl, inr, Bool, true, false, List,
  [], ◌∷◌, ◌++◌, length, ltb, leb, if◌then◌else◌, if_else, all_below, all_below_sound, ◌==◌, ==_iff,
  Bool-cases, arith,
}
use Prim.Native.Nat.{bit_or}
use kraken_infer.Json.Monad.{scanned}
use kraken_infer.Json.RoundTrip.{bind_scanned}
use kraken_infer.Json.Scanner.{
  hex_digit, hex_digits, unicode_digits, append_utf8, append_unicode_escape, append_escape,
  is_digit,
}

-- The UTF-8 of a code point below 65536: one byte below 0x80; a byte 110xxxxx and a byte 10xxxxxx;
-- or a byte 1110xxxx and two bytes 10xxxxxx. The bits `x` spell the code point, which the shorter
-- forms cannot.
abbrev pub IsUtf8 : ℕ → List ℕ → Type 0
IsUtf8 codepoint [] = ⊥
IsUtf8 codepoint (a ∷ []) = (a ≡ codepoint) × (a < 0x80)
IsUtf8 codepoint (a ∷ b ∷ []) =
    (0xC0 ≤ a)
    × (a < 0xE0)
    × (0x80 ≤ b)
    × (b < 0xC0)
    × (0x80 ≤ codepoint)
    × ((a - 0xC0) * 64 + (b - 0x80) ≡ codepoint)
IsUtf8 codepoint (a ∷ b ∷ c ∷ []) =
    (0xE0 ≤ a)
    × (a < 0xF0)
    × (0x80 ≤ b)
    × (b < 0xC0)
    × (0x80 ≤ c)
    × (c < 0xC0)
    × (0x800 ≤ codepoint)
    × ((a - 0xE0) * 4096 + (b - 0x80) * 64 + (c - 0x80) ≡ codepoint)
IsUtf8 codepoint (a ∷ b ∷ c ∷ d ∷ more) = ⊥

-- The marks of leading and continuing bytes are added, since their bits are clear.
bit_or_table : all_below 64 (λ x. bit_or 0x80 x == 0x80 + x) ≡ true
unfolding all_below
bit_or_table = refl

bit_or_two : all_below 32 (λ x. bit_or 0xC0 x == 0xC0 + x) ≡ true
unfolding all_below
bit_or_two = refl

bit_or_three : all_below 16 (λ x. bit_or 0xE0 x == 0xE0 + x) ≡ true
unfolding all_below
bit_or_three = refl

continuing : (x : ℕ) → x < 64 → bit_or 0x80 x ≡ 0x80 + x
continuing x h =
    (==_iff _ _).0 (all_below_sound 64 (λ x. bit_or 0x80 x == 0x80 + x) x bit_or_table h)

leading_two : (x : ℕ) → x < 32 → bit_or 0xC0 x ≡ 0xC0 + x
leading_two x h =
    (==_iff _ _).0 (all_below_sound 32 (λ x. bit_or 0xC0 x == 0xC0 + x) x bit_or_two h)

leading_three : (x : ℕ) → x < 16 → bit_or 0xE0 x ≡ 0xE0 + x
leading_three x h =
    (==_iff _ _).0 (all_below_sound 16 (λ x. bit_or 0xE0 x == 0xE0 + x) x bit_or_three h)

-- The UTF-8 of a code point is appended.
abbrev pub Appends : List ℕ → ℕ → List ℕ → Type 0
Appends result codepoint extended =
    (bytes : List ℕ) × (extended ≡ result ++ bytes) × IsUtf8 codepoint bytes

append_utf8-Appends :
    (result : List ℕ) (codepoint : ℕ)
    → codepoint < 65536
    → Appends result codepoint (append_utf8 result codepoint)
unfolding append_utf8
append_utf8-Appends result codepoint small = elim (Bool-cases (leb codepoint 0x7F)) [
  | inl one ↦ rw one (codepoint ∷ [], refl, (refl, ground arith))
  | inr more ↦ elim (Bool-cases (leb codepoint 0x7FF)) [
    | inl two ↦
        let lead = leading_two (codepoint / 64) (ground arith) in
        let last = continuing (codepoint % 64) (omega arith) in
        let large : 0x80 ≤ codepoint = ground arith in
        let few : codepoint ≤ 0x7FF = ground arith in
        rw (more, two) (_, refl, rw (lead, last) (omega arith))
    | inr three ↦
        let lead = leading_three (codepoint / 4096) (omega arith) in
        let middle = continuing (codepoint / 64 % 64) (omega arith) in
        let last = continuing (codepoint % 64) (omega arith) in
        let large : 0x800 ≤ codepoint = ground arith in
        rw (more, three) (_, refl, rw (lead, middle, last) (omega arith))
  ]
]

-- The character of a hexadecimal digit, in upper case or in lower case.
abbrev pub hex_char : Bool → ℕ → ℕ
hex_char upper d = if ltb d 10 then b'0' + d else if upper then b'A' + (d - 10) else b'a' + (d - 10)

hex_digit-hex_char :
    (upper : Bool) (d : ℕ) (input : List ℕ)
    → d < 16
    → hex_digit (hex_char upper d) input ≡ scanned (d, input)
unfolding hex_digit is_digit
hex_digit-hex_char true d input small = ground arith
hex_digit-hex_char false d input small = ground arith

hex_digits_next :
    (upper : Bool) (rounds codepoint d : ℕ) (input : List ℕ)
    → d < 16
    → hex_digits (suc rounds) codepoint (hex_char upper d ∷ input)
      ≡ hex_digits rounds (codepoint * 16 + d) input
unfolding hex_digits
hex_digits_next upper rounds codepoint d input small =
    bind_scanned (hex_digit (hex_char upper d))
      (λ digit. hex_digits rounds (codepoint * 16 + digit)) input
      (hex_digit-hex_char upper d input small)

hex_digits_none :
    (codepoint : ℕ) (input : List ℕ) → hex_digits 0 codepoint input ≡ scanned (codepoint, input)
unfolding hex_digits
hex_digits_none codepoint input = refl

unicode_digits_lem :
    (input : List ℕ) → 4 ≤ length input → unicode_digits input ≡ hex_digits 4 0 input
unfolding unicode_digits
unicode_digits_lem input enough = if_else (ltb (length input) 4) _ _ (ground arith)

append_escape_unicode :
    (result input : List ℕ) → append_escape result b'u' input ≡ append_unicode_escape result input
unfolding append_escape
append_escape_unicode result input = refl

append_unicode_escape_lem :
    (result input : List ℕ) {codepoint : ℕ} {rest : List ℕ}
    → unicode_digits input ≡ scanned (codepoint, rest)
    → append_unicode_escape result input ≡ scanned (append_utf8 result codepoint, rest)
unfolding append_unicode_escape
append_unicode_escape_lem result input e =
    bind_scanned unicode_digits (λ codepoint rest. scanned (append_utf8 result codepoint, rest))
      input e

-- Behind a backslash, `u` and four hexadecimal digits, each in upper case or in lower case, append the
-- UTF-8 of the code point that the digits spell, in one to three bytes, and what follows is left
-- unread. A surrogate counts as a code point of its own here.
pub append_escape-Appends :
    (a b c d : ℕ) (upper_a upper_b upper_c upper_d : Bool) (result rest : List ℕ)
    → a < 16
    → b < 16
    → c < 16
    → d < 16
    → (extended : List ℕ) × (append_escape result b'u'
          (hex_char upper_a a ∷ hex_char upper_b b ∷ hex_char upper_c c ∷ hex_char upper_d d ∷ rest)
        ≡ scanned (extended, rest))
      × Appends result (((a * 16 + b) * 16 + c) * 16 + d) extended
append_escape-Appends a b c d upper_a upper_b upper_c upper_d result rest ha hb hc hd =
    let input =
      hex_char upper_a a ∷ hex_char upper_b b ∷ hex_char upper_c c ∷ hex_char upper_d d ∷ rest in
    let codepoint = ((a * 16 + b) * 16 + c) * 16 + d in
    let digits : unicode_digits input ≡ scanned (codepoint, rest) =
      unicode_digits_lem input (omega arith)
      ∙ hex_digits_next upper_a 3 0 a _ ha
      ∙ ap
          (λ k.
            hex_digits 3 k (hex_char upper_b b ∷ hex_char upper_c c ∷ hex_char upper_d d ∷ rest))
          (let same : 0 * 16 + a ≡ a = omega arith in same)
      ∙ hex_digits_next upper_b 2 a b _ hb
      ∙ hex_digits_next upper_c 1 (a * 16 + b) c _ hc
      ∙ hex_digits_next upper_d 0 ((a * 16 + b) * 16 + c) d rest hd
      ∙ hex_digits_none codepoint rest in
    (
      append_utf8 result codepoint,
      append_escape_unicode result input ∙ append_unicode_escape_lem result input digits,
      append_utf8-Appends result codepoint (omega arith),
    )
