-- ===== src/Tokenizer/Words.antt =====
-- `split_qwen35_words`: the text is cut into words by the classes of its code points.
use kraken_infer.Base.{
  ℕ, zero, suc, ◌+◌, ◌-◌, Bool, not, ◌&&◌, ◌||◌, List, [], ◌∷◌, ◌++◌, Option, none, some, ltb, leb,
  ◌==◌, if◌then◌else◌, length, drop, get_elem?,
}
use kraken_infer.Tokenizer.Utf8.{CodepointSpan, utf8_codepoint_spans, substr}
use kraken_infer.Tokenizer.Bytes.{byte_encoded}
use kraken_infer.Tokenizer.Flags.{UnicodeFlags, no_flags, any_flag, unicode_flags, ascii_tolower}

abbrev pub Spans : Type 0
Spans = List CodepointSpan

unfoldable pub span_end_byte : Spans → ℕ → List ℕ → ℕ
span_end_byte spans index text = elim (get_elem? spans index) [
  | none ↦ length text
  | some span ↦ span.byte_offset
]

abbrev pub out_of_range : ℕ
out_of_range = 0xFFFFFFFF

unfoldable pub get_cpt : Spans → ℕ → ℕ
get_cpt spans pos = elim (get_elem? spans pos) [ none ↦ out_of_range | some span ↦ span.codepoint ]

unfoldable pub get_flags : Spans → ℕ → UnicodeFlags
unfolding unicode_flags
get_flags spans pos = elim (get_elem? spans pos) [
  | none ↦ no_flags
  | some span ↦ unicode_flags span.codepoint
]

-- `while (test at pos) ++pos`, whose test fails behind the last span: the spans that are passed.
unfoldable pub count_while : (CodepointSpan → Bool) → Spans → ℕ
count_while test [] = 0
count_while test (span ∷ spans) = if test span then suc (count_while test spans) else 0

abbrev pub while_at : (CodepointSpan → Bool) → Spans → ℕ → ℕ
unfolding count_while
while_at test spans pos = pos + count_while test (drop pos spans)

abbrev pub is_line_end : ℕ → Bool
is_line_end cpt = cpt == b'\r' || cpt == b'\n'

abbrev pub is_letter_or_mark : UnicodeFlags → Bool
is_letter_or_mark flags = flags.is_letter || flags.is_accent_mark

-- Not whitespace, letter, mark or number.
abbrev pub is_other : UnicodeFlags → Bool
is_other flags =
    not (flags.is_whitespace || flags.is_letter || flags.is_accent_mark || flags.is_number)

-- Where the word at `pos` ends, for the branches of the loop in their order; `none` where a branch does
-- not apply.
unfoldable pub contraction_end : Spans → ℕ → Option ℕ
contraction_end spans pos =
    let next = ascii_tolower (get_cpt spans (pos + 1)) in
    let next_next = ascii_tolower (get_cpt spans (pos + 2)) in
    if get_cpt spans pos == 39 && ltb (pos + 1) (length spans)
    then if next == b's' || next == b't' || next == b'm' || next == b'd'
      then some (pos + 2)
      else if ltb (pos + 2) (length spans)
          && (next == b'r' && next_next == b'e'
              || next == b'v' && next_next == b'e'
              || next == b'l' && next_next == b'l')
      then some (pos + 3)
      else none
    else none

unfoldable pub letters_end : Spans → ℕ → Option ℕ
unfolding while_at
letters_end spans pos =
    let flags = get_flags spans pos in
    let next_flags = get_flags spans (pos + 1) in
    if not (is_line_end (get_cpt spans pos))
      && not flags.is_number
      && (is_letter_or_mark flags || next_flags.is_accent_mark || next_flags.is_letter)
    then some (while_at (λ span. is_letter_or_mark (unicode_flags span.codepoint)) spans (pos + 1))
    else none

unfoldable pub number_end : Spans → ℕ → Option ℕ
number_end spans pos = if (get_flags spans pos).is_number then some (pos + 1) else none

unfoldable pub others_end : Spans → ℕ → Option ℕ
unfolding while_at
others_end spans pos =
    let flags = get_flags spans pos in
    let is_blank = get_cpt spans pos == b' ' in
    let flags2 = if is_blank then get_flags spans (pos + 1) else flags in
    let start = if is_blank then pos + 1 else pos in
    let is_more = λ (span : CodepointSpan).
      is_other (unicode_flags span.codepoint) && any_flag (unicode_flags span.codepoint) in
    if is_other flags2 && any_flag flags
    then some (while_at (λ span. is_line_end span.codepoint) spans (while_at is_more spans start))
    else none

-- `last_end_r_or_n` over a run of whitespace.
unfoldable pub last_line_end : ℕ → ℕ → Spans → ℕ
last_line_end pos last [] = last
last_line_end pos last (span ∷ spans) =
    let rest =
      last_line_end (pos + 1) (if is_line_end span.codepoint then pos + 1 else last) spans in
    if (unicode_flags span.codepoint).is_whitespace then rest else last

unfoldable pub whitespace_end : Spans → ℕ → ℕ
whitespace_end spans pos =
    let num_whitespaces =
      count_while (λ span. (unicode_flags span.codepoint).is_whitespace) (drop pos spans) in
    let last_end_r_or_n = last_line_end pos 0 (drop pos spans) in
    if ltb 0 last_end_r_or_n
    then last_end_r_or_n
    else if ltb 1 num_whitespaces && not (get_cpt spans (pos + num_whitespaces) == out_of_range)
    then pos + (num_whitespaces - 1)
    else if ltb 0 num_whitespaces
    then pos + num_whitespaces
    else pos + 1

abbrev pub or_else : Option ℕ → ℕ → ℕ
or_else none otherwise = otherwise
or_else (some end) otherwise = end

-- One round of the loop: where the word that begins at `pos` ends.
unfoldable pub word_end : Spans → ℕ → ℕ
word_end spans pos = or_else (contraction_end spans pos) (
    or_else (letters_end spans pos)
      (or_else (number_end spans pos) (or_else (others_end spans pos) (whitespace_end spans pos))))

unfoldable pub add_word : List ℕ → Spans → ℕ → ℕ → List (List ℕ)
add_word text spans start end =
    let byte_start = span_end_byte spans start text in
    let byte_end = span_end_byte spans end text in
    if leb end start then [] else byte_encoded (substr text byte_start (byte_end - byte_start)) ∷ []

-- The loop, over the spans from `pos` on. A round takes the word at `pos`; `skip` counts the spans of it
-- that are still to be passed.
unfoldable pub words_from : List ℕ → Spans → ℕ → ℕ → Spans → List (List ℕ)
words_from text spans skip pos [] = []
words_from text spans zero pos (span ∷ rest) =
    let end = word_end spans pos in
    add_word text spans pos end ++ words_from text spans (end - pos - 1) (pos + 1) rest
words_from text spans (suc skip) pos (span ∷ rest) = words_from text spans skip (pos + 1) rest

unfoldable pub split_qwen35_words : List ℕ → List (List ℕ)
split_qwen35_words text = let spans = utf8_codepoint_spans text in words_from text spans 0 0 spans
