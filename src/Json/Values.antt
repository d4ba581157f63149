-- ===== src/Json/Values.antt =====
-- Values that are skipped: the loops end, and the recursion ends on a stack that is deep enough.
use kraken_infer.Base.{
  ℕ, zero, suc, ◌≤◌, ◌<◌, inl, inr, Bool, true, false, ◌||◌, List, [], ◌∷◌, ◌==◌, if◌then◌else◌,
  length, length-drop, starts_with, Bool-cases, arith,
}
use kraken_infer.Json.Monad.{Scanner, return, ◌>>=◌, ◌>>◌}
use kraken_infer.Json.Scanner.{
  skip_ws, expect, consume, is_digit, parse_string, parse_uint, parse_uint_array,
}
use kraken_infer.Json.Skip.{
  peek, is_number_character, skipped_number, skip_number, skip_word, skip_kind, close_or,
  skip_value, skip_members, skip_items, members_of, items_of, true_word, false_word, null_word,
}
use kraken_infer.Json.Ends.{
  Within, Within-mono, Within-bind, Within-if, Keeps, Shrinks, skip_ws-Keeps, expect-Shrinks,
  consume-Keeps,
}
use kraken_infer.Json.Strings.{parse_string-Shrinks}
use kraken_infer.Json.Numbers.{parse_uint-Shrinks, parse_uint_array-Shrinks}

skipped_number-le : (input : List ℕ) → length (skipped_number input) ≤ length input
unfolding skipped_number
skipped_number-le [] = omega arith
skipped_number-le (ch ∷ input) = elim (Bool-cases (is_number_character ch)) [
  | inl part ↦ rw part (omega (arith, skipped_number-le input))
  | inr other ↦ rw other (omega arith)
]

length_if :
    (b : Bool) (x y : List ℕ) (n : ℕ)
    → length x ≤ n
    → length y ≤ n
    → length (if b then x else y) < suc n
length_if true x y n le _ = omega arith
length_if false x y n _ le = omega arith

skip_number-Keeps : Keeps skip_number
unfolding Keeps skip_number
skip_number-Keeps [] = omega arith
skip_number-Keeps (ch ∷ input) =
    let minus = skipped_number-le input in
    length_if (ch == b'-') (skipped_number input) (skipped_number (ch ∷ input))
      (length (ch ∷ input)) (omega arith) (skipped_number-le (ch ∷ input))

skip_word-Keeps : Keeps skip_word
unfolding Keeps skip_word
skip_word-Keeps input =
    let four = length-drop 4 input in
    let five = length-drop 5 input in
    elim (Bool-cases (starts_with input true_word)) [
      | inl is_true ↦ rw is_true (omega arith)
      | inr no_true ↦ elim (Bool-cases (starts_with input false_word)) [
        | inl is_false ↦ rw (no_true, is_false) (omega arith)
        | inr no_false ↦ elim (Bool-cases (starts_with input null_word)) [
          | inl is_null ↦ rw (no_true, no_false, is_null) (omega arith)
          | inr no_null ↦ rw (no_true, no_false, no_null) tt
        ]
      ]
    ]

-- The values that are skipped: within `k` bytes, where each part leaves less than it was given.
module _ (k : ℕ) where
  close_or-Within :
      (closing : ℕ) (rest : Scanner (Unit {0})) (input : List ℕ)
      → length input < k
      → ((r : List ℕ) → length r ≤ length input → Within k (rest r))
      → Within k (close_or closing rest input)
  unfolding Keeps close_or
  close_or-Within closing rest input less rests =
      Within-bind (suc (length input)) k (consume closing) _ input (consume-Keeps closing input)
        (λ closed r less1.
          Within-if closed (return tt) rest k r (omega arith) (rests r (omega arith)))

  skip_kind-Within :
      (ch : ℕ) (members items : Scanner (Unit {0})) (input : List ℕ)
      → length input < k
      → Within k (members input)
      → Within k (items input)
      → Within k (skip_kind ch members items input)
  unfolding Keeps Shrinks skip_kind
  skip_kind-Within ch members items input less m i =
      let text =
        Within-bind (length input) k parse_string (λ _. return tt) input
          (parse_string-Shrinks input) (λ a r less1. omega arith) in
      let number =
        Within-mono (suc (length input)) k (skip_number input) less (skip_number-Keeps input) in
      let word =
        Within-mono (suc (length input)) k (skip_word input) less (skip_word-Keeps input) in
      Within-if (ch == b'"') (parse_string >> return tt) _ k input text (
        Within-if (ch == b'{') members _ k input m (
          Within-if (ch == b'[') items _ k input i
            (Within-if (is_digit ch || ch == b'-') skip_number skip_word k input number word)))

comma-Within :
    (k : ℕ) (rest : Scanner (Unit {0})) (input : List ℕ)
    → ((r : List ℕ) → length r < length input → Within k (rest r))
    → Within k ((expect b',' >> rest) input)
unfolding Shrinks
comma-Within k rest input within =
    Within-bind (length input) k (expect b',') (λ _. rest) input (expect-Shrinks b',' input)
      (λ u r less. within r less)

-- A call that ends on inputs of at most `n` bytes.
module _ (value : Scanner (Unit {0})) (n : ℕ)
    (ends : (r : List ℕ) → length r ≤ n → Within (suc (length r)) (value r)) where
  skip_members-Within :
      (fuel : ℕ) (input : List ℕ)
      → length input ≤ n
      → length input < fuel
      → Within (suc (length input)) (skip_members value fuel input)
  unfolding Keeps Shrinks skip_members
  skip_members-Within zero input small enough = absurd (omega arith)
  skip_members-Within (suc fuel) input small enough =
      let k = suc (length input) in
      Within-bind (length input) k parse_string _ input (parse_string-Shrinks input)
        (λ name r1 less1.
          Within-bind (length r1) k (expect b':') _ r1 (expect-Shrinks b':' r1) (λ u r2 less2.
            Within-bind (suc (length r2)) k value _ r2 (ends r2 (omega arith)) (λ v r3 less3.
              close_or-Within k b'}' _ r3 (omega arith) (λ r4 less4.
                comma-Within k (skip_members value fuel) r4 (λ r5 less5.
                  Within-mono _ _ (skip_members value fuel r5) (omega arith)
                    (skip_members-Within fuel r5 (omega arith) (omega arith)))))))

  skip_items-Within :
      (fuel : ℕ) (input : List ℕ)
      → length input ≤ n
      → length input < fuel
      → Within (suc (length input)) (skip_items value fuel input)
  unfolding Keeps Shrinks skip_items
  skip_items-Within zero input small enough = absurd (omega arith)
  skip_items-Within (suc fuel) input small enough =
      let k = suc (length input) in
      Within-bind (suc (length input)) k value _ input (ends input small) (λ v r3 less3.
        close_or-Within k b']' _ r3 (omega arith) (λ r4 less4.
          comma-Within k (skip_items value fuel) r4 (λ r5 less5.
            Within-mono _ _ (skip_items value fuel r5) (omega arith)
              (skip_items-Within fuel r5 (omega arith) (omega arith)))))

-- The branches of `skip_value` behind the whitespace, where the nested call ends on shorter inputs.
at_peek :
    (value : Scanner (Unit {0})) (input r : List ℕ)
    → length r < suc (length input)
    → ((r' : List ℕ) → length r' < length input → Within (suc (length r')) (value r'))
    → Within (suc (length input)) (
        (peek >>= λ ch.
        skip_kind ch
          (expect b'{' >> close_or b'}' (members_of value))
          (expect b'[' >> close_or b']' (items_of value)))
          r)
unfolding Keeps Shrinks
at_peek value input [] less ends = tt
at_peek value input (ch ∷ r) less ends =
    let k = suc (length input) in
    let shorter = λ (n : ℕ) (small : n < length input) (r' : List ℕ) (le : length r' ≤ n).
      ends r' (omega arith) in
    skip_kind-Within k ch _ _ (ch ∷ r) less
      (Within-bind (length (ch ∷ r)) k (expect b'{') _ (ch ∷ r) (expect-Shrinks b'{' (ch ∷ r))
        (λ u r1 less1. close_or-Within k b'}' (members_of value) r1 (omega arith) (λ r2 le.
          Within-mono _ _ (members_of value r2) (omega arith) (
            skip_members-Within value (length r2) (shorter (length r2) (omega arith))
              (suc (length r2)) r2 (omega arith) (omega arith)))))
      (Within-bind (length (ch ∷ r)) k (expect b'[') _ (ch ∷ r) (expect-Shrinks b'[' (ch ∷ r))
        (λ u r1 less1. close_or-Within k b']' (items_of value) r1 (omega arith) (λ r2 le.
          Within-mono _ _ (items_of value r2) (omega arith) (
            skip_items-Within value (length r2) (shorter (length r2) (omega arith))
              (suc (length r2)) r2 (omega arith) (omega arith)))))

pub skip_value-Within :
    (stack : ℕ) (input : List ℕ)
    → length input < stack
    → Within (suc (length input)) (skip_value stack input)
unfolding Keeps Shrinks skip_value
skip_value-Within zero input enough = absurd (omega arith)
skip_value-Within (suc stack) input enough =
    Within-bind (suc (length input)) (suc (length input)) skip_ws _ input (skip_ws-Keeps input)
      (λ u r less.
        at_peek (skip_value stack) input r less
          (λ r' less'. skip_value-Within stack r' (omega arith)))

-- The scanner's loops end on every input: `parse_string`, `parse_uint` and `parse_uint_array` return or
-- throw, and leave fewer bytes than they were given if they return. So does `skip_value`, which calls
-- itself for each level of nesting, as long as the call stack has room for more such calls than
-- there are bytes; it leaves at most the bytes that it was given.
pub scanner_total :
    (stack : ℕ) (input : List ℕ)
    → length input < stack
    → Within (length input) (parse_string input)
      × Within (length input) (parse_uint input)
      × Within (length input) (parse_uint_array input)
      × Within (suc (length input)) (skip_value stack input)
unfolding Shrinks
scanner_total stack input enough = (
  parse_string-Shrinks input,
  parse_uint-Shrinks input,
  parse_uint_array-Shrinks input,
  skip_value-Within stack input enough,
)
