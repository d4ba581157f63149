-- ===== src/Base/Words.antt =====
-- Unsigned machine words: `std::uint64_t` and `std::size_t` are 64 bits wide.
use Prim.Native.Nat.{ℕ, zero, suc, ◌-◌, ◌*◌, ◌/◌, ◌%◌, ◌^◌, ◌≤◌, ◌<◌}
use mathlib.Core.Path.{◌≡◌}
use mathlib.Core.Logic.{inl, inr}
use mathlib.Core.Bool.{Bool, true, false, not, ◌&&◌}
use native.Mathlib.Nat.{le-div_iff_mul-le, div-lt_iff_lt-mul, mul-zero}
use native.Mathlib.Omega.{arith}
use kraken_infer.Base.Tests.{ltb, ◌==◌, Bool-cases}

abbrev pub u64_mod : ℕ
u64_mod = 2 ^ 64

abbrev pub u64_max : ℕ
u64_max = u64_mod - 1

-- The value a 64-bit word keeps of a number.
abbrev pub wrap : ℕ → ℕ
wrap n = n % u64_mod

pub wrap_lem : (n : ℕ) → n < u64_mod → wrap n ≡ n
wrap_lem n h = omega arith

-- `y != 0 && x > std::numeric_limits<std::uint64_t>::max() / y`, the test before `x * y`.
abbrev pub product_exceeds : ℕ → ℕ → Bool
product_exceeds x y = not (y == 0) && ltb (u64_max / y) x

pub mul-le-u64_max : (x y : ℕ) → product_exceeds x y ≡ false → x * y ≤ u64_max
mul-le-u64_max x zero h = omega (arith, mul-zero x)
mul-le-u64_max x (suc y) h =
    let le : x ≤ u64_max / suc y = ground arith in (le-div_iff_mul-le (omega arith)).0 le

pub product_exceeds_lt : (x y : ℕ) → product_exceeds x y ≡ true → u64_max < x * y
product_exceeds_lt x zero h = absurd (ground arith)
product_exceeds_lt x (suc y) h =
    let lt : u64_max / suc y < x = ground arith in (div-lt_iff_lt-mul (omega arith)).0 lt

pub product_exceeds-false : (x y : ℕ) → x * y ≤ u64_max → product_exceeds x y ≡ false
product_exceeds-false x y h = elim (Bool-cases (product_exceeds x y)) [
  | inl e ↦ absurd (omega (arith, product_exceeds_lt x y e))
  | inr e ↦ e
]

pub product_exceeds-true : (x y : ℕ) → u64_max < x * y → product_exceeds x y ≡ true
product_exceeds-true x y h = elim (Bool-cases (product_exceeds x y)) [
  | inl e ↦ e
  | inr e ↦ absurd (omega (arith, mul-le-u64_max x y e))
]
