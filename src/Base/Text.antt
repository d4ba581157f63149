-- ===== src/Base/Text.antt =====
-- `std::string` as a list of bytes: comparison and search.
use Prim.Native.Nat.{ℕ, suc, ◌+◌, ◌≤◌}
use mathlib.Core.Path.{◌≡◌, refl, sym, ◌∙◌}
use mathlib.Core.Logic.{inl, inr}
use mathlib.Core.Bool.{Bool, true, false, ◌&&◌}
use mathlib.Core.Option
use mathlib.Core.Option.{Option, none, some, some-injective}
use mathlib.Core.List.{List, [], ◌∷◌}
use native.Mathlib.Omega.{arith}
use kraken_infer.Base.Tests.{◌==◌, if◌then◌else◌, leb, Bool-cases, Option-cases}
use kraken_infer.Base.Lists.{length, take}

-- `empty`.
abbrev pub is_empty {ℓ} : {A : Type ℓ} → List A → Bool
is_empty [] = true
is_empty (x ∷ xs) = false

-- `==` of two strings.
unfoldable pub string_eq : List ℕ → List ℕ → Bool
string_eq [] [] = true
string_eq (a ∷ s) (b ∷ t) = a == b && string_eq s t
string_eq _ _ = false

pub string_eq_refl : (s : List ℕ) → string_eq s s ≡ true
unfolding string_eq
string_eq_refl [] = refl
string_eq_refl (a ∷ s) = ground (arith, string_eq_refl s)

pub string_eq-eq : (s t : List ℕ) → string_eq s t ≡ true → s ≡ t
unfolding string_eq
string_eq-eq [] [] e = refl
string_eq-eq [] (b ∷ t) e = absurd (ground arith)
string_eq-eq (a ∷ s) [] e = absurd (ground arith)
string_eq-eq (a ∷ s) (b ∷ t) e = ground (arith, string_eq-eq s t)

-- `text.size() >= prefix.size() && text.substr(0, prefix.size()) == prefix`.
unfoldable pub starts_with : List ℕ → List ℕ → Bool
unfolding string_eq
starts_with text prefix =
    leb (length prefix) (length text) && string_eq (take (length prefix) text) prefix

-- `find`: the place of the first occurrence, and nothing for `npos`.
unfoldable pub find : List ℕ → List ℕ → Option ℕ
unfolding starts_with
find [] pattern_text = if starts_with [] pattern_text then some 0 else none
find (c ∷ text) pattern_text =
    let later = Option.map suc (find text pattern_text) in
    if starts_with (c ∷ text) pattern_text then some 0 else later

pub starts_with-le :
    (text prefix : List ℕ) → starts_with text prefix ≡ true → length prefix ≤ length text
unfolding starts_with
starts_with-le text prefix e = ground arith

-- The search, one byte on.
pub find_cons :
    (c : ℕ) (text tag : List ℕ)
    → starts_with (c ∷ text) tag ≡ false
    → find (c ∷ text) tag ≡ Option.map suc (find text tag)
unfolding find
find_cons c text tag gone = rw gone

pub find_here : (text tag : List ℕ) → starts_with text tag ≡ true → find text tag ≡ some 0
unfolding find
find_here [] tag here = rw here
find_here (c ∷ text) tag here = rw here

pub find_missing : (tag : List ℕ) → starts_with [] tag ≡ false → find [] tag ≡ none
unfolding find
find_missing tag gone = rw gone

-- Where a search that fails at the front goes on.
pub find_later :
    (c : ℕ) (text tag : List ℕ) {i : ℕ}
    → starts_with (c ∷ text) tag ≡ false
    → find (c ∷ text) tag ≡ some i
    → (j : ℕ) × (i ≡ suc j) × (find text tag ≡ some j)
find_later c text tag {i} gone e =
    let mapped = sym (find_cons c text tag gone) ∙ e in
    elim (Option-cases (find text tag)) [
      | inl missing ↦ absurd (let f = rw missing at mapped in cc)
      | inr found ↦ let f = rw (found.1) at mapped in (found.0, sym (some-injective _ _ f), found.1)
    ]

pub find-le : (text tag : List ℕ) {i : ℕ} → find text tag ≡ some i → i + length tag ≤ length text
find-le [] tag {i} e = elim (Bool-cases (starts_with [] tag)) [
  | inl here ↦
      let le = starts_with-le [] tag here in
      let same = some-injective 0 i (sym (find_here [] tag here) ∙ e) in omega arith
  | inr gone ↦ absurd (let f = sym (find_missing tag gone) ∙ e in cc)
]
find-le (c ∷ text) tag {i} e = elim (Bool-cases (starts_with (c ∷ text) tag)) [
  | inl here ↦
      let le = starts_with-le (c ∷ text) tag here in
      let same = some-injective 0 i (sym (find_here (c ∷ text) tag here) ∙ e) in omega arith
  | inr gone ↦
      let (j, next, found) = find_later c text tag {i = i} gone e in
      omega (arith, find-le text tag {i = j} found)
]
