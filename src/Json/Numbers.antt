-- ===== src/Json/Numbers.antt =====
-- Numbers and arrays of them: each call returns or throws.
use kraken_infer.Base.{
  ℕ, zero, suc, ◌+◌, ◌-◌, ◌*◌, ◌<◌, inl, inr, List, [], ◌∷◌, ltb, wrap, ◌/◌, length, Bool-cases,
  u64_max, arith,
}
use kraken_infer.Json.Monad.{return, ◌>>=◌, ◌>>◌}
use kraken_infer.Json.Scanner.{
  skip_ws, expect, consume, is_digit, uint_loop, uint_here, starts_digit, parse_uint,
  uint_array_loop, uint_array_items, parse_uint_array,
}
use kraken_infer.Json.Ends.{
  Within, Within-mono, Within-bind, Within-if, Keeps, Shrinks, Keeps-Keeps, Keeps-Shrinks,
  Shrinks-Keeps, Keeps-return, Keeps-if, skip_ws-Keeps, expect-Shrinks, consume-Keeps,
}

uint_loop-Keeps : (value : ℕ) → Keeps (uint_loop value)
unfolding Keeps uint_loop
uint_loop-Keeps value [] = omega arith
uint_loop-Keeps value (ch ∷ input) =
    let next = wrap (value * 10 + (ch - b'0')) in
    elim (Bool-cases (is_digit ch)) [
      | inr other ↦ rw other (omega arith)
      | inl digit ↦ elim (Bool-cases (ltb ((u64_max - (ch - b'0')) / 10) value)) [
        | inl over ↦ rw (digit, over) tt
        | inr fits ↦
            rw (digit, fits)
              (Within-mono _ _ (uint_loop next input) (omega arith) (uint_loop-Keeps next input))
      ]
    ]

uint_here-Shrinks : Shrinks uint_here
unfolding Shrinks Keeps uint_here starts_digit uint_loop
uint_here-Shrinks [] = tt
uint_here-Shrinks (ch ∷ input) = elim (Bool-cases (is_digit ch)) [
  | inr other ↦ rw other tt
  | inl digit ↦ elim (Bool-cases (ltb ((u64_max - (ch - b'0')) / 10) 0)) [
    | inl over ↦ rw (digit, over) tt
    | inr fits ↦ rw (digit, fits) (uint_loop-Keeps (wrap (0 * 10 + (ch - b'0'))) input)
  ]
]

pub parse_uint-Shrinks : Shrinks parse_uint
unfolding parse_uint
parse_uint-Shrinks = Keeps-Shrinks skip_ws (λ _. uint_here) skip_ws-Keeps (λ _. uint_here-Shrinks)

uint_array_loop-Within :
    (fuel : ℕ) (input : List ℕ)
    → length input < fuel
    → Within (length input) (uint_array_loop fuel input)
unfolding Shrinks Keeps uint_array_loop
uint_array_loop-Within zero input enough = absurd (omega arith)
uint_array_loop-Within (suc fuel) input enough =
    let others =
      λ (value : ℕ). expect b',' >> (uint_array_loop fuel >>= λ values. return (value ∷ values)) in
    Within-bind (length input) (length input) parse_uint _ input (parse_uint-Shrinks input)
      (λ value r1 less1.
        Within-bind (suc (length r1)) (length input) (consume b']') _ r1 (consume-Keeps b']' r1)
          (λ closed r2 less2.
            Within-if closed (return (value ∷ [])) (others value) (length input) r2 (omega arith) (
              Within-bind (length r2) (length input) (expect b',') _ r2 (expect-Shrinks b',' r2)
                (λ u r3 less3.
                  Within-bind (length r3) (length input) (uint_array_loop fuel) _ r3
                    (uint_array_loop-Within fuel r3 (omega arith))
                    (λ values r4 less4. omega arith)))))

uint_array_items-Keeps : Keeps uint_array_items
unfolding Keeps uint_array_items
uint_array_items-Keeps input =
    Within-mono _ _ (uint_array_loop (suc (length input)) input) (omega arith)
      (uint_array_loop-Within (suc (length input)) input (omega arith))

pub parse_uint_array-Shrinks : Shrinks parse_uint_array
unfolding parse_uint_array uint_array_items
parse_uint_array-Shrinks = Shrinks-Keeps (expect b'[') _ (expect-Shrinks b'[') (λ _.
    Keeps-Keeps (consume b']') _ (consume-Keeps b']') (λ closed.
      Keeps-if closed (return []) uint_array_items (Keeps-return []) uint_array_items-Keeps))
