-- ===== src/Json/Ends.antt =====
-- Every scanner returns or throws: no loop runs out of fuel, and what is read is taken off the input.
use kraken_infer.Base.{
  ℕ, suc, ◌≤◌, ◌<◌, inl, inr, Bool, true, false, List, [], ◌∷◌, ◌==◌, if◌then◌else◌, length,
  Bool-cases, arith,
}
use kraken_infer.Json.Monad.{Scanned, Scanner, exhausted, scanned, fails, return, fail, ◌>>=◌}
use kraken_infer.Json.Scanner.{
  is_space, skipped_ws, skip_ws, advance, expect_here, expect, consume_here, consume,
}

-- The call did not run out of fuel, and leaves less than `n` bytes if it returns.
abbrev pub Within : {A : Type 0} → ℕ → Scanned (A × List ℕ) → Type 0
Within n exhausted = ⊥
Within n fails = Unit
Within n (scanned result) = length result.1 < n

pub Within-mono :
    {A : Type 0} (n k : ℕ) (result : Scanned (A × List ℕ))
    → n ≤ k
    → Within n result
    → Within k result
Within-mono n k exhausted le within = within
Within-mono n k fails le within = tt
Within-mono n k (scanned result) le within = omega arith

pub Within-bind :
    {A B : Type 0} (n k : ℕ) (m : Scanner A) (f : A → Scanner B) (input : List ℕ)
    → Within n (m input)
    → ((a : A) (rest : List ℕ) → length rest < n → Within k (f a rest))
    → Within k ((m >>= f) input)
Within-bind {A} {B} n k m f input within after = go (m input) within
  where
    go :
        (result : Scanned (A × List ℕ))
        → Within n result
        → Within k (elim result [ exhausted ↦ exhausted | fails ↦ fails | scanned r ↦ f r.0 r.1 ])
    go exhausted w = w
    go fails w = tt
    go (scanned r) w = after r.0 r.1 w

pub Within-if :
    {A : Type 0} (b : Bool) (x y : Scanner A) (n : ℕ) (input : List ℕ)
    → Within n (x input)
    → Within n (y input)
    → Within n ((if b then x else y) input)
Within-if true x y n input wx wy = wx
Within-if false x y n input wx wy = wy

-- A scanner that never adds to the input, and one that always takes something off it.
unfoldable pub Keeps : {A : Type 0} → Scanner A → Type 0
Keeps m = (input : List ℕ) → Within (suc (length input)) (m input)

unfoldable pub Shrinks : {A : Type 0} → Scanner A → Type 0
Shrinks m = (input : List ℕ) → Within (length input) (m input)

pub Keeps-Keeps :
    {A B : Type 0} (m : Scanner A) (f : A → Scanner B)
    → Keeps m
    → ((a : A) → Keeps (f a))
    → Keeps (m >>= f)
unfolding Keeps Shrinks
Keeps-Keeps m f k h input =
    Within-bind (suc (length input)) (suc (length input)) m f input (k input)
      (λ a rest less. Within-mono _ _ (f a rest) less (h a rest))

pub Keeps-Shrinks :
    {A B : Type 0} (m : Scanner A) (f : A → Scanner B)
    → Keeps m
    → ((a : A) → Shrinks (f a))
    → Shrinks (m >>= f)
unfolding Keeps Shrinks
Keeps-Shrinks m f k h input =
    Within-bind (suc (length input)) (length input) m f input (k input)
      (λ a rest less. Within-mono _ _ (f a rest) (omega arith) (h a rest))

pub Shrinks-Keeps :
    {A B : Type 0} (m : Scanner A) (f : A → Scanner B)
    → Shrinks m
    → ((a : A) → Keeps (f a))
    → Shrinks (m >>= f)
unfolding Keeps Shrinks
Shrinks-Keeps m f k h input =
    Within-bind (length input) (length input) m f input (k input)
      (λ a rest less. Within-mono _ _ (f a rest) less (h a rest))

pub Keeps-return : {A : Type 0} (a : A) → Keeps (return a)
unfolding Keeps
Keeps-return a input = omega arith

pub Keeps-fail : (A : Type 0) → Keeps (fail {A = A})
unfolding Keeps
Keeps-fail A input = tt

pub Keeps-of_Shrinks : {A : Type 0} (m : Scanner A) → Shrinks m → Keeps m
unfolding Keeps Shrinks
Keeps-of_Shrinks m h input = Within-mono _ _ (m input) (omega arith) (h input)

pub Keeps-if :
    {A : Type 0} (b : Bool) (x y : Scanner A) → Keeps x → Keeps y → Keeps (if b then x else y)
Keeps-if true x y kx ky = kx
Keeps-if false x y kx ky = ky

skipped_ws-le : (input : List ℕ) → length (skipped_ws input) ≤ length input
unfolding skipped_ws
skipped_ws-le [] = omega arith
skipped_ws-le (ch ∷ input) = elim (Bool-cases (is_space ch)) [
  | inl space ↦ rw space (omega (arith, skipped_ws-le input))
  | inr other ↦ rw other (omega arith)
]

pub skip_ws-Keeps : Keeps skip_ws
unfolding Keeps skip_ws
skip_ws-Keeps input = omega (arith, skipped_ws-le input)

pub advance-Shrinks : Shrinks advance
unfolding Shrinks
advance-Shrinks [] = tt
advance-Shrinks (ch ∷ input) = omega arith

pub expect-Shrinks : (expected : ℕ) → Shrinks (expect expected)
unfolding Shrinks expect expect_here
expect-Shrinks expected =
    Keeps-Shrinks skip_ws (λ _. expect_here expected) skip_ws-Keeps (λ _. here)
  where
    here : Shrinks (expect_here expected)
    here [] = tt
    here (ch ∷ input) = elim (Bool-cases (ch == expected)) [
      | inl same ↦ rw same (omega arith)
      | inr other ↦ rw other tt
    ]

pub consume-Keeps : (expected : ℕ) → Keeps (consume expected)
unfolding Keeps consume consume_here
consume-Keeps expected = Keeps-Keeps skip_ws (λ _. consume_here expected) skip_ws-Keeps (λ _. here)
  where
    here : Keeps (consume_here expected)
    here [] = omega arith
    here (ch ∷ input) = elim (Bool-cases (ch == expected)) [
      | inl same ↦ rw same (omega arith)
      | inr other ↦ rw other (omega arith)
    ]
