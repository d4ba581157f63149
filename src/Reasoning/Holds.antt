-- ===== src/Reasoning/Holds.antt =====
-- What a round holds back: the start of a tag that a later chunk may complete, and newlines that may
-- turn out to stand before a tag.
use kraken_infer.Base.{
  ℕ, zero, suc, ◌-◌, min, ◌≤◌, ◌<◌, ◌≡◌, refl, sym, ap, ◌∙◌, inl, inr, true, false, ◌&&◌, List, [],
  ◌∷◌, ◌++◌, none, some, ◌==◌, ==_iff, leb, length, take, drop, length-take, length-drop,
  take-append-drop, is_empty, string_eq, string_eq_refl, starts_with, take-length-append,
  starts_with-shorten, starts_with-eq-append, find, find_suffix, find-starts_with, not_here,
  take-append_le, drop-append_le, Bool-cases, arith,
}
use mathlib.Core.Path.{subst}
use kraken_infer.Reasoning.Tags.{
  is_newline, trim_trailing_newlines, remove_newlines, leading_newline_count,
  trailing_newline_count, prefix_suffix_from, tag_prefix_suffix_size,
}
use kraken_infer.Reasoning.Drain.{trailing_newline_count-le}
use kraken_infer.Reasoning.Stream.{skip_newlines}

-- The loop finds the longest suffix, from `size` down.
prefix_suffix_from-max :
    (text tag : List ℕ) (size n : ℕ)
    → n ≤ size
    → string_eq (drop (length text - n) text) (take n tag) ≡ true
    → n ≤ prefix_suffix_from text tag size
unfolding prefix_suffix_from
prefix_suffix_from-max text tag zero n le e = le
prefix_suffix_from-max text tag (suc size) n le e =
    elim (Bool-cases (string_eq (drop (length text - suc size) text) (take (suc size) tag))) [
      | inl here ↦ rw here le
      | inr gone ↦ rw gone (elim (Bool-cases (n == suc size)) [
        | inl same ↦
            let is : n ≡ suc size = (==_iff n (suc size)).0 same in
            absurd (let f = sym (rw is at e) ∙ gone in cc)
        | inr apart ↦ prefix_suffix_from-max text tag size n (ground arith) e
      ])
    ]

tag_prefix_suffix_size-max :
    (text tag : List ℕ) (n : ℕ)
    → n ≤ length text
    → n < length tag
    → string_eq (drop (length text - n) text) (take n tag) ≡ true
    → n ≤ tag_prefix_suffix_size text tag
unfolding tag_prefix_suffix_size
tag_prefix_suffix_size-max text tag n fits short e =
    prefix_suffix_from-max text tag (min (length text) (length tag - 1)) n (omega arith) e

-- A tag that the text and what follows hold, and the text alone does not, begins in what is held back.
pub tag_prefix_suffix_size-covers :
    (text more tag : List ℕ) (i : ℕ)
    → find (text ++ more) tag ≡ some i
    → find text tag ≡ none
    → i ≤ length text
    → length text - i ≤ tag_prefix_suffix_size text tag
tag_prefix_suffix_size-covers text more tag i found missing fits =
    let s = drop i text in
    let size = length-drop i text in
    let at : starts_with (s ++ more) tag ≡ true =
      subst (λ t. starts_with t tag ≡ true) (drop-append_le i text more fits)
        (find-starts_with (text ++ more) tag {i = i} found) in
    let apart : starts_with s tag ≡ false = not_here s tag (
      find_suffix (take i text) s tag
        (subst (λ t. find t tag ≡ none) (sym (take-append-drop i text)) missing)) in
    elim (Bool-cases (leb (length tag) (length s))) [
      | inl long ↦
          absurd (let f = sym (starts_with-shorten s more tag (ground arith) at) ∙ apart in cc)
      | inr short ↦
          let n = length text - i in
          let le : length s ≤ length tag = ground arith in
          let rest = drop (length tag) (s ++ more) in
          let begins : take (length s) tag ≡ s =
            sym (take-append_le (length s) tag rest le)
            ∙ ap (take (length s)) (starts_with-eq-append (s ++ more) tag at)
            ∙ take-length-append s more in
          let back : length text - n ≡ i = omega arith in
          let suffix : string_eq (drop (length text - n) text) (take n tag) ≡ true =
            rw (back, ← size, begins) (string_eq_refl s) in
          tag_prefix_suffix_size-max text tag n (omega arith) (ground arith) suffix
    ]

-- Nothing is trimmed from a text that does not end with a newline.
pub trim_trailing_newlines-append :
    (text more : List ℕ)
    → trailing_newline_count text ≡ 0
    → trim_trailing_newlines (text ++ more) ≡ text ++ trim_trailing_newlines more
unfolding trailing_newline_count trim_trailing_newlines
trim_trailing_newlines-append [] more e = refl
trim_trailing_newlines-append (c ∷ []) more e =
    let other : is_newline c ≡ false = ground arith in rw other
trim_trailing_newlines-append (c ∷ d ∷ text) more e =
    let none_left : trailing_newline_count (d ∷ text) ≡ 0 = ground arith in
    rw (trim_trailing_newlines-append (d ∷ text) more none_left) (ground arith)

-- Without the newlines at its end a text does not end with a newline.
pub trailing_newline_count-take :
    (text : List ℕ)
    → trailing_newline_count (take (length text - trailing_newline_count text) text) ≡ 0
unfolding trailing_newline_count
trailing_newline_count-take [] = refl
trailing_newline_count-take (c ∷ text) =
    let k = trailing_newline_count text in
    let le = trailing_newline_count-le text in
    let ih = trailing_newline_count-take text in
    let size = length-take (length text - k) text in
    elim (Bool-cases (is_newline c && k == length text)) [
      | inl whole ↦
          let nothing : suc (length text) - suc k ≡ 0 = ground arith in rw (whole, nothing)
      | inr part ↦
          let one_more : suc (length text) - k ≡ suc (length text - k) = omega arith in
          rw (part, one_more, ih) (ground arith)
    ]

pub skip_newlines_lem : (text : List ℕ) → skip_newlines text ≡ remove_newlines text
unfolding skip_newlines leading_newline_count remove_newlines
skip_newlines_lem [] = refl
skip_newlines_lem (c ∷ text) = elim (Bool-cases (is_newline c)) [
  | inl newline ↦ rw newline (skip_newlines_lem text)
  | inr other ↦ rw other
]

-- Newlines at the front that come in two chunks.
pub remove_newlines-append_empty :
    (text more : List ℕ)
    → remove_newlines text ≡ []
    → remove_newlines (text ++ more) ≡ remove_newlines more
unfolding remove_newlines
remove_newlines-append_empty [] more e = refl
remove_newlines-append_empty (c ∷ text) more e = elim (Bool-cases (is_newline c)) [
  | inl newline ↦ rw newline (remove_newlines-append_empty text more (rw newline at e))
  | inr other ↦ absurd (let f = rw other at e in cc)
]

pub remove_newlines-append_filled :
    (text more : List ℕ)
    → is_empty (remove_newlines text) ≡ false
    → remove_newlines (text ++ more) ≡ remove_newlines text ++ more
unfolding remove_newlines
remove_newlines-append_filled [] more e = absurd (cc)
remove_newlines-append_filled (c ∷ text) more e = elim (Bool-cases (is_newline c)) [
  | inl newline ↦ rw newline (remove_newlines-append_filled text more (rw newline at e))
  | inr other ↦ rw other
]

remove_newlines-le : (text : List ℕ) → length (remove_newlines text) ≤ length text
unfolding remove_newlines
remove_newlines-le [] = omega arith
remove_newlines-le (c ∷ text) = elim (Bool-cases (is_newline c)) [
  | inl newline ↦ rw newline (omega (arith, remove_newlines-le text))
  | inr other ↦ rw other (omega arith)
]

-- Nothing is skipped in a buffer if nothing is to skip in the text.
pub remove_newlines-front :
    (buffer later : List ℕ)
    → is_empty buffer ≡ false
    → remove_newlines (buffer ++ later) ≡ buffer ++ later
    → remove_newlines buffer ≡ buffer
unfolding remove_newlines
remove_newlines-front [] later filled fixed = absurd (cc)
remove_newlines-front (c ∷ buffer) later filled fixed = elim (Bool-cases (is_newline c)) [
  | inr other ↦ rw other
  | inl newline ↦
      let short = remove_newlines-le (buffer ++ later) in
      let long = ap (length {A = ℕ}) (rw newline at fixed) in absurd (omega arith)
]
