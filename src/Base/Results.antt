-- ===== src/Base/Results.antt =====
-- A call that returns a value or throws. The text of a message is not modelled: an error is the
-- kind of exception or status that the source raises.
use mathlib.Core.Path.{◌≡◌, refl, subst}
use mathlib.Core.Bool.{Bool, true, false}

-- `std::invalid_argument`, `std::overflow_error`, `std::runtime_error`, `std::length_error`.
pub data Error : Type 0 where
  invalid_argument overflow_error runtime_error length_error : Error

pub data Outcome {ℓ} (A : Type ℓ) : Type ℓ where
  err : Error → Outcome A
  ok : A → Outcome A

-- `if (!test) throw`.
abbrev pub guard : (test : Bool) (why : Error) → Outcome (Unit {0})
guard false why = err why
guard true why = ok tt

module _ {ℓ κ} {A : Type ℓ} {B : Type κ} where
  infixl 5 ◌>>=◌
  -- The statements after a call that may throw.
  abbrev pub ◌>>=◌ : Outcome A → (A → Outcome B) → Outcome B
  err why >>= after = err why
  ok value >>= after = after value

  -- A sequence that returns has run its first call to the end.
  pub >>=-eq-ok :
      (first : Outcome A) (after : A → Outcome B) {result : B}
      → (first >>= after) ≡ ok result
      → (value : A) × (first ≡ ok value) × (after value ≡ ok result)
  >>=-eq-ok (err why) after returns = cc
  >>=-eq-ok (ok value) after returns = (value, refl, returns)

  pub >>=-same :
      (first : Outcome A) {f g : A → Outcome B}
      → ((a : A) → f a ≡ g a)
      → (first >>= f) ≡ (first >>= g)
  >>=-same (err why) same = refl
  >>=-same (ok value) same = same value

module _ {ℓ} {A : Type ℓ} where
  infixl 5 ◌>>◌
  abbrev pub ◌>>◌ : Outcome (Unit {0}) → Outcome A → Outcome A
  check >> after = check >>= λ _. after

  pub ok-injective : {a b : A} → Outcome.ok a ≡ ok b → a ≡ b
  ok-injective same = cc

-- Whatever a call returns, when it returns, is such a value.
unfoldable pub Ensures {ℓ κ} : {A : Type ℓ} → (A → Type κ) → Outcome A → Type (ℓ ⊔ κ)
Ensures {A} P call = (result : A) → call ≡ ok result → P result

module _ {ℓ κ} {A : Type ℓ} (P : A → Type κ) where
  pub Ensures-ok : {a : A} → P a → Ensures P (ok a)
  unfolding Ensures
  Ensures-ok p _ e = subst P (ok-injective e) p

  pub Ensures-bind {μ} :
      {B : Type μ} (first : Outcome B) (after : B → Outcome A)
      → ((b : B) → first ≡ ok b → Ensures P (after b))
      → Ensures P (first >>= after)
  unfolding Ensures
  Ensures-bind first after all result e =
      let (b, is_b, e) = >>=-eq-ok first after e in all b is_b result e

  pub Ensures-guard :
      (test : Bool) (why : Error) (after : Unit {0} → Outcome A)
      → (test ≡ true → Ensures P (after tt))
      → Ensures P (guard test why >>= after)
  unfolding Ensures
  Ensures-guard false why after all result e = cc
  Ensures-guard true why after all result e = all refl result e

  pub Ensures_lem : {call : Outcome A} {result : A} → Ensures P call → call ≡ ok result → P result
  unfolding Ensures
  Ensures_lem {result} ensures e = ensures result e

module _ {ℓ κ μ} {A : Type ℓ} {P : A → Type κ} {Q : A → Type μ} where
  pub Ensures-implied : (call : Outcome A) → ((a : A) → P a → Q a) → Ensures P call → Ensures Q call
  unfolding Ensures
  Ensures-implied call weaker ensures result e = weaker result (ensures result e)

module _ {ℓ κ ν μ} {A : Type ℓ} {B : Type ν} {P : A → Type κ} (Q : B → Type μ) where
  -- What the first call ensures, the second may use.
  pub Ensures-chain :
      (first : Outcome A) (after : A → Outcome B)
      → Ensures P first
      → ((a : A) → P a → Ensures Q (after a))
      → Ensures Q (first >>= after)
  unfolding Ensures
  Ensures-chain first after ensures all result e =
      let (a, is_a, e) = >>=-eq-ok first after e in all a (ensures a is_a) result e
