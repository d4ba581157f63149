-- ===== src/Reasoning/Tags.antt =====
-- The tags, newlines and the searches at the ends of a text.
use kraken_infer.Base.{
  ℕ, zero, suc, ◌-◌, min, Bool, ◌&&◌, ◌||◌, List, [], ◌∷◌, ◌==◌, if◌then◌else◌, length, take, drop,
  is_empty, string_eq,
}

-- "<think>".
abbrev pub think_start : List ℕ
think_start = 60 ∷ 116 ∷ 104 ∷ 105 ∷ 110 ∷ 107 ∷ 62 ∷ []

-- "</think>".
abbrev pub think_end : List ℕ
think_end = 60 ∷ 47 ∷ 116 ∷ 104 ∷ 105 ∷ 110 ∷ 107 ∷ 62 ∷ []

unfoldable pub is_newline : ℕ → Bool
is_newline ch = ch == b'\n' || ch == b'\r'

unfoldable pub trim_trailing_newlines : List ℕ → List ℕ
unfolding is_newline
trim_trailing_newlines [] = []
trim_trailing_newlines (ch ∷ text) =
    let rest = trim_trailing_newlines text in
    if is_newline ch && is_empty rest then [] else ch ∷ rest

-- The loop that removes newlines from the front.
unfoldable pub remove_newlines : List ℕ → List ℕ
unfolding is_newline
remove_newlines [] = []
remove_newlines (ch ∷ text) = if is_newline ch then remove_newlines text else ch ∷ text

unfoldable pub leading_newline_count : List ℕ → ℕ
unfolding is_newline
leading_newline_count [] = 0
leading_newline_count (ch ∷ text) = if is_newline ch then suc (leading_newline_count text) else 0

-- A first byte counts only if all behind it do.
unfoldable pub trailing_newline_count : List ℕ → ℕ
unfolding is_newline
trailing_newline_count [] = 0
trailing_newline_count (ch ∷ text) =
    let count = trailing_newline_count text in
    if is_newline ch && count == length text then suc count else count

-- The loop of `tag_prefix_suffix_size`, from `size` down.
unfoldable pub prefix_suffix_from : List ℕ → List ℕ → ℕ → ℕ
unfolding string_eq
prefix_suffix_from text tag zero = 0
prefix_suffix_from text tag (suc size) =
    let smaller = prefix_suffix_from text tag size in
    if string_eq (drop (length text - suc size) text) (take (suc size) tag)
    then suc size
    else smaller

unfoldable pub tag_prefix_suffix_size : List ℕ → List ℕ → ℕ
unfolding prefix_suffix_from
tag_prefix_suffix_size text tag = prefix_suffix_from text tag (min (length text) (length tag - 1))
