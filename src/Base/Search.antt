-- ===== src/Base/Search.antt =====
-- What `starts_with` and `find` say of a text: where a tag stands, and where it cannot stand.
use Prim.Native.Nat.{ℕ, zero, suc, ◌+◌, ◌≤◌}
use mathlib.Core.Path.{◌≡◌, refl, sym, ap, ◌∙◌, subst}
use mathlib.Core.Logic.{◌≢◌, inl, inr}
use mathlib.Core.Bool.{true, false}
use mathlib.Core.Option.{none, some, some-injective}
use mathlib.Core.List.{List, [], ◌∷◌, ◌++◌, append_assoc}
use native.Mathlib.Omega.{arith}
use native.Mathlib.Nat.{zero-add, suc-add}
use kraken_infer.Base.Tests.{leb, le→leb, and-right, Bool-cases, Option-cases}
use kraken_infer.Base.Lists.{length, take, drop, All, take-append-drop, length-append}
use kraken_infer.Base.Text.{
  string_eq_refl, string_eq-eq, starts_with, find, find_cons, find_here, find_later, find_missing,
  find-le,
}

pub take-length-append : (xs ys : List ℕ) → take (length xs) (xs ++ ys) ≡ xs
take-length-append [] ys = refl
take-length-append (x ∷ xs) ys = ap (◌∷◌ x) (take-length-append xs ys)

pub drop-length-append : (xs ys : List ℕ) → drop (length xs) (xs ++ ys) ≡ ys
drop-length-append [] ys = refl
drop-length-append (x ∷ xs) ys = drop-length-append xs ys

-- Behind both of two texts.
pub drop-add : (xs ys zs : List ℕ) → drop (length xs + length ys) (xs ++ (ys ++ zs)) ≡ zs
drop-add [] ys zs = rw zero-add (drop-length-append ys zs)
drop-add (x ∷ xs) ys zs = rw (suc-add) (drop-add xs ys zs)

pub starts_with-append : (tag rest : List ℕ) → starts_with (tag ++ rest) tag ≡ true
unfolding starts_with
starts_with-append tag rest = rw (
  take-length-append tag rest,
  string_eq_refl tag,
  le→leb (length tag) (length (tag ++ rest)) (omega (arith, length-append {0} tag rest)),
)

pub starts_with-eq-append :
    (text tag : List ℕ) → starts_with text tag ≡ true → tag ++ drop (length tag) text ≡ text
unfolding starts_with
starts_with-eq-append text tag e =
    let same =
      string_eq-eq (take (length tag) text) tag (and-right (leb (length tag) (length text)) _ e) in
    rw same at (take-append-drop {A = ℕ} (length tag) text)

-- A text that starts with a tag starts with it whatever follows.
starts_with-extend :
    (text more tag : List ℕ) → starts_with text tag ≡ true → starts_with (text ++ more) tag ≡ true
starts_with-extend text more tag e =
    let rest = drop (length tag) text in
    let split : (tag ++ rest) ++ more ≡ text ++ more =
      ap (λ t. t ++ more) (starts_with-eq-append text tag e) in
    subst (λ t. starts_with t tag ≡ true) (sym (append_assoc tag rest more) ∙ split)
      (starts_with-append tag (rest ++ more))

pub not_here : (text tag : List ℕ) → find text tag ≡ none → starts_with text tag ≡ false
not_here text tag missing = elim (Bool-cases (starts_with text tag)) [
  | inl here ↦ absurd (let f = sym (find_here text tag here) ∙ missing in cc)
  | inr gone ↦ gone
]

not_later : (c : ℕ) (text tag : List ℕ) → find (c ∷ text) tag ≡ none → find text tag ≡ none
not_later c text tag missing =
    let mapped = sym (find_cons c text tag (not_here (c ∷ text) tag missing)) ∙ missing in
    elim (Option-cases (find text tag)) [
      | inl gone ↦ gone
      | inr found ↦ absurd (let f = rw (found.1) at mapped in cc)
    ]

find_cons-none :
    (c : ℕ) (text tag : List ℕ)
    → starts_with (c ∷ text) tag ≡ false
    → find text tag ≡ none
    → find (c ∷ text) tag ≡ none
find_cons-none c text tag gone missing = find_cons c text tag gone ∙ rw missing

-- Where a tag does not occur, it does not occur behind or before a place.
pub find_suffix :
    (before text tag : List ℕ) → find (before ++ text) tag ≡ none → find text tag ≡ none
find_suffix [] text tag missing = missing
find_suffix (c ∷ before) text tag missing =
    find_suffix before text tag (not_later c (before ++ text) tag missing)

pub find_prefix : (text more tag : List ℕ) → find (text ++ more) tag ≡ none → find text tag ≡ none
find_prefix [] more tag missing = elim (Bool-cases (starts_with [] tag)) [
  | inl here ↦
      absurd
        (let f = sym (find_here more tag (starts_with-extend [] more tag here)) ∙ missing in cc)
  | inr gone ↦ find_missing tag gone
]
find_prefix (c ∷ text) more tag missing = elim (Bool-cases (starts_with (c ∷ text) tag)) [
  | inl here ↦
      absurd (
        let f = sym (find_here _ tag (starts_with-extend (c ∷ text) more tag here)) ∙ missing in cc)
  | inr gone ↦
      find_cons-none c text tag gone
        (find_prefix text more tag (not_later c (text ++ more) tag missing))
]

-- A tag whose first byte does not come again in it cannot overlap itself.
overlap :
    (first : ℕ) (tag rest before after : List ℕ)
    → All (λ c. c ≢ first) tag
    → tag ++ rest ≡ before ++ first ∷ after
    → (more : List ℕ) × (before ≡ tag ++ more)
overlap first [] rest before after fresh e = (before, refl)
overlap first (c ∷ tag) rest [] after fresh e = absurd (fresh.0 (cc))
overlap first (c ∷ tag) rest (b ∷ before) after fresh e =
    let (more, same) = overlap first tag rest before after fresh.1 (cc) in (more, cc)

-- The first occurrence of such a tag, behind a text in which it does not occur.
pub find-append :
    (first : ℕ) (tag before after : List ℕ)
    → All (λ c. c ≢ first) tag
    → find before (first ∷ tag) ≡ none
    → find (before ++ ((first ∷ tag) ++ after)) (first ∷ tag) ≡ some (length before)
find-append first tag [] after fresh missing =
    find_here ((first ∷ tag) ++ after) (first ∷ tag) (starts_with-append (first ∷ tag) after)
find-append first tag (b ∷ before) after fresh missing =
    let text = before ++ ((first ∷ tag) ++ after) in
    elim (Bool-cases (starts_with (b ∷ text) (first ∷ tag))) [
      | inr gone ↦
          find_cons b text (first ∷ tag) gone
          ∙ rw (find-append first tag before after fresh (not_later b before (first ∷ tag) missing))
      | inl here ↦
          let split = starts_with-eq-append (b ∷ text) (first ∷ tag) here in
          let (more, same) =
            overlap first tag (drop (length tag) text) before (tag ++ after) fresh (cc) in
          let inside : starts_with (b ∷ before) (first ∷ tag) ≡ true =
            let whole : (first ∷ tag) ++ more ≡ b ∷ before = cc in
            subst (λ t. starts_with t (first ∷ tag) ≡ true) whole
              (starts_with-append (first ∷ tag) more) in
          absurd (let f = sym inside ∙ not_here (b ∷ before) (first ∷ tag) missing in cc)
    ]

pub take-append_le : (n : ℕ) (xs ys : List ℕ) → n ≤ length xs → take n (xs ++ ys) ≡ take n xs
take-append_le zero xs ys le = refl
take-append_le (suc n) [] ys le = absurd (omega arith)
take-append_le (suc n) (x ∷ xs) ys le = ap (◌∷◌ x) (take-append_le n xs ys (omega arith))

pub drop-append_le : (n : ℕ) (xs ys : List ℕ) → n ≤ length xs → drop n (xs ++ ys) ≡ drop n xs ++ ys
drop-append_le zero xs ys le = refl
drop-append_le (suc n) [] ys le = absurd (omega arith)
drop-append_le (suc n) (x ∷ xs) ys le = drop-append_le n xs ys (omega arith)

-- A text that is as long as the tag starts with it if the longer text does.
pub starts_with-shorten :
    (text more tag : List ℕ)
    → length tag ≤ length text
    → starts_with (text ++ more) tag ≡ true
    → starts_with text tag ≡ true
unfolding starts_with
starts_with-shorten text more tag le e =
    let same = and-right (leb (length tag) (length (text ++ more))) _ e in
    rw (le→leb (length tag) (length text) le, ← take-append_le (length tag) text more le) same

-- What is found in a text is found in it whatever follows.
pub find-extend :
    (text more tag : List ℕ) {i : ℕ} → find text tag ≡ some i → find (text ++ more) tag ≡ some i
find-extend [] more tag {i} e = elim (Bool-cases (starts_with [] tag)) [
  | inl here ↦
      find_here more tag (starts_with-extend [] more tag here) ∙ sym (find_here [] tag here) ∙ e
  | inr gone ↦ absurd (let f = sym (find_missing tag gone) ∙ e in cc)
]
find-extend (c ∷ text) more tag {i} e = elim (Bool-cases (starts_with (c ∷ text) tag)) [
  | inl here ↦
      find_here _ tag (starts_with-extend (c ∷ text) more tag here)
      ∙ sym (find_here (c ∷ text) tag here)
      ∙ e
  | inr gone ↦
      let (j, next, found) = find_later c text tag {i = i} gone e in
      elim (Bool-cases (starts_with (c ∷ (text ++ more)) tag)) [
        | inr apart ↦
            find_cons c (text ++ more) tag apart
            ∙ rw (find-extend text more tag {i = j} found, next)
        | inl here ↦
            let le = find-le text tag {i = j} found in
            let inside = starts_with-shorten (c ∷ text) more tag (omega arith) here in
            absurd (let f = sym inside ∙ gone in cc)
      ]
]

-- The tag stands where it is found.
pub find-starts_with :
    (text tag : List ℕ) {i : ℕ} → find text tag ≡ some i → starts_with (drop i text) tag ≡ true
find-starts_with [] tag {i} e = elim (Bool-cases (starts_with [] tag)) [
  | inl here ↦
      let at_front : 0 ≡ i = some-injective 0 i (sym (find_here [] tag here) ∙ e) in
      subst (λ k. starts_with (drop k []) tag ≡ true) at_front here
  | inr gone ↦ absurd (let f = sym (find_missing tag gone) ∙ e in cc)
]
find-starts_with (c ∷ text) tag {i} e = elim (Bool-cases (starts_with (c ∷ text) tag)) [
  | inl here ↦
      let at_front : 0 ≡ i = some-injective 0 i (sym (find_here (c ∷ text) tag here) ∙ e) in
      subst (λ k. starts_with (drop k (c ∷ text)) tag ≡ true) at_front here
  | inr gone ↦
      let (j, next, found) = find_later c text tag {i = i} gone e in
      subst (λ k. starts_with (drop k (c ∷ text)) tag ≡ true) (sym next)
        (find-starts_with text tag {i = j} found)
]

pub take-take : (n m : ℕ) (xs : List ℕ) → n ≤ m → take n (take m xs) ≡ take n xs
take-take zero m xs le = refl
take-take (suc n) zero xs le = absurd (omega arith)
take-take (suc n) (suc m) [] le = refl
take-take (suc n) (suc m) (x ∷ xs) le = ap (◌∷◌ x) (take-take n m xs (omega arith))
