-- ===== src/Json/Decimal.antt =====
-- `parse_uint` reads the number that its digits spell, and throws exactly when that does not fit.
use kraken_infer.Base.{
  ℕ, ◌+◌, ◌-◌, ◌*◌, ◌/◌, ◌≤◌, ◌<◌, ◌≡◌, refl, sym, ap, ◌∙◌, inl, inr, true, false, List, [], ◌∷◌,
  ◌++◌, map, All, wrap_lem, u64_max, ltb, leb, le→leb, if◌then◌else◌, if_then, Bool-cases, arith,
}
use kraken_infer.Json.Monad.{scanned, fails}
use kraken_infer.Json.Scanner.{
  is_space, skipped_ws, is_digit, uint_loop, starts_digit, uint_here, parse_uint,
}

-- The character of a digit.
abbrev pub digit_char : ℕ → ℕ
digit_char d = b'0' + d

abbrev pub IsDigit : ℕ → Type 0
IsDigit d = d < 10

-- The number that digits spell behind others that spell `value`.
unfoldable pub decimal : ℕ → List ℕ → ℕ
decimal value [] = value
decimal value (d ∷ digits) = decimal (value * 10 + d) digits

decimal-ge : (value : ℕ) (digits : List ℕ) → value ≤ decimal value digits
unfolding decimal
decimal-ge value [] = omega arith
decimal-ge value (d ∷ digits) = omega (arith, decimal-ge (value * 10 + d) digits)

uint_loop-rest :
    (value : ℕ) (rest : List ℕ)
    → starts_digit rest ≡ false
    → uint_loop value rest ≡ scanned (value, rest)
unfolding uint_loop starts_digit
uint_loop-rest value [] e = refl
uint_loop-rest value (ch ∷ rest) e = rw e

not_leb : (a b : ℕ) → b < a → leb a b ≡ false
not_leb a b h = ground arith

digit_here : (d : ℕ) → d < 10 → is_digit (digit_char d) ≡ true
unfolding is_digit
digit_here d below = ground arith

not_space : (d : ℕ) → d < 10 → is_space (digit_char d) ≡ false
unfolding is_space
not_space d below = ground arith

-- A round of the loop, on a digit that fits and on one that does not.
uint_loop_next :
    (value d : ℕ) (input : List ℕ)
    → d < 10
    → value * 10 + d ≤ u64_max
    → uint_loop value (digit_char d ∷ input) ≡ uint_loop (value * 10 + d) input
unfolding uint_loop
uint_loop_next value d input below fits =
    let same : digit_char d - b'0' ≡ d = omega arith in
    let passes : ltb ((u64_max - d) / 10) value ≡ false = ground arith in
    rw (digit_here d below, same, passes, wrap_lem (value * 10 + d) (omega arith))

uint_loop_over :
    (value d : ℕ) (input : List ℕ)
    → d < 10
    → u64_max < value * 10 + d
    → uint_loop value (digit_char d ∷ input) ≡ fails
unfolding uint_loop
uint_loop_over value d input below over =
    let same : digit_char d - b'0' ≡ d = omega arith in
    let stops : ltb ((u64_max - d) / 10) value ≡ true = ground arith in
    rw (digit_here d below, same, stops)

uint_loop-decimal :
    (value : ℕ) (digits rest : List ℕ)
    → value ≤ u64_max
    → All IsDigit digits
    → starts_digit rest ≡ false
    → uint_loop value (map digit_char digits ++ rest)
      ≡ (if leb (decimal value digits) u64_max then scanned (decimal value digits, rest) else fails)
unfolding decimal
uint_loop-decimal value [] rest small digits_are ends =
    uint_loop-rest value rest ends ∙ rw (le→leb value u64_max small)
uint_loop-decimal value (d ∷ digits) rest small digits_are ends =
    let ge = decimal-ge (value * 10 + d) digits in
    let below : d < 10 = digits_are.0 in
    elim (Bool-cases (leb (value * 10 + d) u64_max)) [
      | inl fits ↦
          let fit : value * 10 + d ≤ u64_max = ground arith in
          uint_loop_next value d (map digit_char digits ++ rest) below fit
          ∙ uint_loop-decimal (value * 10 + d) digits rest fit digits_are.1 ends
      | inr over ↦
          let big : u64_max < value * 10 + d = ground arith in
          uint_loop_over value d (map digit_char digits ++ rest) below big
          ∙ sym (rw (not_leb (decimal (value * 10 + d) digits) u64_max (omega arith)))
    ]

parse_uint_lem : (input : List ℕ) → parse_uint input ≡ uint_here (skipped_ws input)
unfolding parse_uint
parse_uint_lem input = refl

skipped_ws_solid :
    (ch : ℕ) (input : List ℕ) → is_space ch ≡ false → skipped_ws (ch ∷ input) ≡ ch ∷ input
unfolding skipped_ws
skipped_ws_solid ch input e = rw e

uint_here_digit : (input : List ℕ) → starts_digit input ≡ true → uint_here input ≡ uint_loop 0 input
unfolding uint_here
uint_here_digit input e = if_then (starts_digit input) _ _ e

starts_digit_char : (d : ℕ) (input : List ℕ) → d < 10 → starts_digit (digit_char d ∷ input) ≡ true
unfolding starts_digit
starts_digit_char d input below = digit_here d below

-- Digits, at least one, and behind them the end of the input or a character that is no digit: `parse_uint`
-- returns the number that they spell and leaves the rest, if the number fits `std::uint64_t`, and
-- throws otherwise.
pub parse_uint-decimal :
    (d : ℕ) (digits rest : List ℕ)
    → All IsDigit (d ∷ digits)
    → starts_digit rest ≡ false
    → parse_uint (map digit_char (d ∷ digits) ++ rest) ≡ (
        if leb (decimal 0 (d ∷ digits)) u64_max
        then scanned (decimal 0 (d ∷ digits), rest)
        else fails)
parse_uint-decimal d digits rest digits_are ends =
    let input = map digit_char digits ++ rest in
    parse_uint_lem (digit_char d ∷ input)
    ∙ ap uint_here (skipped_ws_solid (digit_char d) input (not_space d digits_are.0))
    ∙ uint_here_digit (digit_char d ∷ input) (starts_digit_char d input digits_are.0)
    ∙ uint_loop-decimal 0 (d ∷ digits) rest (omega arith) digits_are ends
