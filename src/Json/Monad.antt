-- ===== src/Json/Monad.antt =====
-- A `JsonScanner` is the unread part of its input: what stands from `position_` on. A call of it returns
-- with what it leaves unread, or throws.
use kraken_infer.Base.{ℕ, List}

-- `fails` is the `std::runtime_error` of `fail`; `exhausted` says that the fuel of a loop ran out.
pub data Scanned {ℓ} (A : Type ℓ) : Type ℓ where
  exhausted : Scanned A
  fails : Scanned A
  scanned : A → Scanned A

abbrev pub Scanner {ℓ} : Type ℓ → Type ℓ
Scanner A = List ℕ → Scanned (A × List ℕ)

module _ {ℓ} {A : Type ℓ} where
  abbrev pub return : A → Scanner A
  return a input = scanned (a, input)

  abbrev pub fail : Scanner A
  fail input = fails

  abbrev pub run_out : Scanner A
  run_out input = exhausted

module _ {ℓ κ} {A : Type ℓ} {B : Type κ} where
  infixl 5 ◌>>=◌
  abbrev pub ◌>>=◌ : Scanner A → (A → Scanner B) → Scanner B
  ◌>>=◌ m f input = elim (m input) [
    | exhausted ↦ exhausted
    | fails ↦ fails
    | scanned result ↦ f result.0 result.1
  ]

module _ {ℓ κ} {A : Type ℓ} {B : Type κ} where
  infixl 5 ◌>>◌
  abbrev pub ◌>>◌ : Scanner A → Scanner B → Scanner B
  m >> after = m >>= λ _. after
