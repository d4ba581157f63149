-- ===== src/Safetensors/Yields.antt =====
-- What holds of every result that a scanner returns, whatever it reads.
use kraken_infer.Base.{ℕ, ◌≡◌, refl, List, Bool, true, false, if◌then◌else◌}
use kraken_infer.Json.Monad.{
  Scanned, Scanner, exhausted, scanned, fails, return, fail, run_out, ◌>>=◌,
}

abbrev pub Gives : {A : Type 0} → (A → Type 0) → Scanned (A × List ℕ) → Type 0
Gives P exhausted = Unit
Gives P fails = Unit
Gives P (scanned result) = P result.0

unfoldable pub Yields : {A : Type 0} → (A → Type 0) → Scanner A → Type 0
Yields P m = (input : List ℕ) → Gives P (m input)

module _ {A : Type 0} where
  pub Yields-return : (P : A → Type 0) (a : A) → P a → Yields P (return a)
  unfolding Yields
  Yields-return P a p input = p

  pub Yields-fail : (P : A → Type 0) → Yields P (fail {A = A})
  unfolding Yields
  Yields-fail P input = tt

  pub Yields-run_out : (P : A → Type 0) → Yields P (run_out {A = A})
  unfolding Yields
  Yields-run_out P input = tt

  pub Yields-if :
      (P : A → Type 0) (b : Bool) (x y : Scanner A)
      → (b ≡ true → Yields P x)
      → (b ≡ false → Yields P y)
      → Yields P (if b then x else y)
  Yields-if P true x y px py = px refl
  Yields-if P false x y px py = py refl

  pub Yields-any : (m : Scanner A) → Yields (λ _. Unit {0}) m
  unfolding Yields
  Yields-any m input = go (m input)
    where
      go : (result : Scanned (A × List ℕ)) → Gives (λ _. Unit {0}) result
      go exhausted = tt
      go fails = tt
      go (scanned r) = tt

pub Yields-then :
    {A B : Type 0} (P : A → Type 0) (Q : B → Type 0) (m : Scanner A) (f : A → Scanner B)
    → Yields P m
    → ((a : A) → P a → Yields Q (f a))
    → Yields Q (m >>= f)
unfolding Yields
Yields-then {A} {B} P Q m f p q input = go (m input) (p input)
  where
    go :
        (result : Scanned (A × List ℕ))
        → Gives P result
        → Gives Q (elim result [ exhausted ↦ exhausted | fails ↦ fails | scanned r ↦ f r.0 r.1 ])
    go exhausted g = tt
    go fails g = tt
    go (scanned r) g = q r.0 g r.1

-- The same, where nothing is known of the first result.
pub Yields-after :
    {A B : Type 0} (Q : B → Type 0) (m : Scanner A) (f : A → Scanner B)
    → ((a : A) → Yields Q (f a))
    → Yields Q (m >>= f)
Yields-after Q m f q = Yields-then (λ _. Unit {0}) Q m f (Yields-any m) (λ a _. q a)
