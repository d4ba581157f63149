-- ===== src/Tokenizer/Tiling.antt =====
-- The words of a text are its slices, one behind the other: no byte is lost, and none is taken twice.
use kraken_infer.Base.{
  ℕ, zero, suc, ◌+◌, ◌-◌, ◌≤◌, ◌<◌, ◌≡◌, refl, sym, ap, ◌∙◌, ◌⊎◌, inl, inr, Bool, true, false, ◌&&◌,
  List, [], ◌∷◌, ◌++◌, Option, none, some, map, leb, ◌==◌, if◌then◌else◌, length, take, drop, All,
  All-take, All-drop, take-drop-append, Bool-cases, arith,
}
use kraken_infer.Tokenizer.Utf8.{front, spans_from, utf8_codepoint_spans}
use kraken_infer.Tokenizer.Bytes.{byte_encoded}
use kraken_infer.Tokenizer.Flags.{UnicodeFlags, any_flag, unicode_flags}
use kraken_infer.Tokenizer.Words.{
  Spans, get_cpt, get_flags, is_other, span_end_byte, is_line_end, last_line_end, word_end,
  contraction_end, letters_end, number_end, others_end, whitespace_end, or_else, add_word,
  words_from, split_qwen35_words,
}
use kraken_infer.Tokenizer.Decoding.{AreBytes}
use kraken_infer.Tokenizer.Spelling.{joined}

drop_all : (text : List ℕ) → drop (length text) text ≡ []
drop_all [] = refl
drop_all (byte ∷ text) = drop_all text

-- The spans begin from `low` on, in order, and before `high`.
abbrev Ascending : ℕ → Spans → ℕ → Type 0
Ascending low [] high = low ≤ high
Ascending low (span ∷ spans) high = (low ≤ span.byte_offset) × Ascending span.byte_offset spans high

Ascending-mono :
    (low low' : ℕ) (spans : Spans) (high : ℕ)
    → low' ≤ low
    → Ascending low spans high
    → Ascending low' spans high
Ascending-mono low low' [] high le up = omega arith
Ascending-mono low low' (span ∷ spans) high le up = (omega arith, up.1)

spans_from-Ascending :
    (skip offset : ℕ) (text : List ℕ)
    → Ascending offset (spans_from skip offset text) (offset + length text)
unfolding spans_from
spans_from-Ascending skip offset [] = omega arith
spans_from-Ascending zero offset (byte ∷ text) =
    let spans = spans_from ((front byte text).1 - 1) (offset + 1) text in
    let same : offset + 1 + length text ≡ offset + suc (length text) = omega arith in
    let later = spans_from-Ascending ((front byte text).1 - 1) (offset + 1) text in
    (omega arith, Ascending-mono (offset + 1) offset spans _ (omega arith) (rw same at later))
spans_from-Ascending (suc skip) offset (byte ∷ text) =
    let same : offset + 1 + length text ≡ offset + suc (length text) = omega arith in
    let later = spans_from-Ascending skip (offset + 1) text in
    Ascending-mono (offset + 1) offset (spans_from skip (offset + 1) text) _ (omega arith)
      (rw same at later)

Ascending-le :
    (low : ℕ) (spans : Spans) (text : List ℕ) (i : ℕ)
    → Ascending low spans (length text)
    → low ≤ span_end_byte spans i text
unfolding span_end_byte
Ascending-le low [] text i up = up
Ascending-le low (span ∷ spans) text zero up = up.0
Ascending-le low (span ∷ spans) text (suc i) up =
    omega (arith, up.0, Ascending-le span.byte_offset spans text i up.1)

span_end_byte_mono :
    (low : ℕ) (spans : Spans) (text : List ℕ) (i j : ℕ)
    → Ascending low spans (length text)
    → i ≤ j
    → span_end_byte spans i text ≤ span_end_byte spans j text
unfolding span_end_byte
span_end_byte_mono low [] text i j up le = omega arith
span_end_byte_mono low (span ∷ spans) text zero j up le = go j
  where
    go : (j : ℕ) → span.byte_offset ≤ span_end_byte (span ∷ spans) j text
    go zero = omega arith
    go (suc j) = Ascending-le span.byte_offset spans text j up.1
span_end_byte_mono low (span ∷ spans) text (suc i) zero up le = absurd (omega arith)
span_end_byte_mono low (span ∷ spans) text (suc i) (suc j) up le =
    span_end_byte_mono span.byte_offset spans text i j up.1 (omega arith)

span_end_byte_end :
    (spans : Spans) (text : List ℕ) (i : ℕ)
    → length spans ≤ i
    → span_end_byte spans i text ≡ length text
unfolding span_end_byte
span_end_byte_end [] text i le = refl
span_end_byte_end (span ∷ spans) text zero le = absurd (omega arith)
span_end_byte_end (span ∷ spans) text (suc i) le = span_end_byte_end spans text i (omega arith)

last_line_end_grows :
    (pos last : ℕ) (spans : Spans)
    → (last_line_end pos last spans ≡ last) ⊎ (pos < last_line_end pos last spans)
unfolding last_line_end
last_line_end_grows pos last [] = inl refl
last_line_end_grows pos last (span ∷ spans) =
    elim (Bool-cases (unicode_flags span.codepoint).is_whitespace) [
      | inr other ↦ rw other (inl refl)
      | inl blank ↦ elim (Bool-cases (is_line_end span.codepoint)) [
        | inl ends ↦
            let ih = last_line_end_grows (pos + 1) (pos + 1) spans in
            rw (blank, ends) (inr (ground (arith, ih)))
        | inr goes ↦
            let ih = last_line_end_grows (pos + 1) last spans in
            rw (blank, goes) (ground (arith, ih))
      ]
    ]

-- The end lies behind the beginning, if there is one.
Grows : ℕ → Option ℕ → Type 0
Grows pos none = Unit
Grows pos (some end) = pos < end

Grows-none : (pos : ℕ) → Grows pos none
unfolding Grows
Grows-none pos = tt

Grows-some : (pos end : ℕ) → pos < end → Grows pos (some end)
unfolding Grows
Grows-some pos end less = less

Grows-if :
    (pos : ℕ) (b : Bool) (x y : Option ℕ)
    → Grows pos x
    → Grows pos y
    → Grows pos (if b then x else y)
Grows-if pos true x y gx gy = gx
Grows-if pos false x y gx gy = gy

or_else-Grows :
    (pos : ℕ) (o : Option ℕ) (otherwise : ℕ)
    → Grows pos o
    → pos < otherwise
    → pos < or_else o otherwise
unfolding Grows
or_else-Grows pos none otherwise g less = less
or_else-Grows pos (some end) otherwise g less = g

contraction_end-Grows : (spans : Spans) (pos : ℕ) → Grows pos (contraction_end spans pos)
unfolding contraction_end
contraction_end-Grows spans pos =
    let two = Grows-some pos (pos + 2) (omega arith) in
    let three = Grows-some pos (pos + 3) (omega arith) in search (Grows-if, Grows-none, two, three)

letters_end-Grows : (spans : Spans) (pos : ℕ) → Grows pos (letters_end spans pos)
unfolding letters_end
letters_end-Grows spans pos =
    Grows-if pos _ _ none (Grows-some pos _ (omega arith)) (Grows-none pos)

number_end-Grows : (spans : Spans) (pos : ℕ) → Grows pos (number_end spans pos)
unfolding number_end
number_end-Grows spans pos =
    Grows-if pos _ _ none (Grows-some pos (pos + 1) (omega arith)) (Grows-none pos)

other_not_any : (flags : UnicodeFlags) → (is_other flags && any_flag flags) ≡ false
other_not_any flags = ground arith

others_end-Grows : (spans : Spans) (pos : ℕ) → Grows pos (others_end spans pos)
unfolding others_end
others_end-Grows spans pos = elim (Bool-cases (get_cpt spans pos == b' ')) [
  | inl blank ↦ rw blank (Grows-if pos _ _ none (Grows-some pos _ (omega arith)) (Grows-none pos))
  | inr other ↦ rw (other, other_not_any (get_flags spans pos)) (Grows-none pos)
]

whitespace_end_grows : (spans : Spans) (pos : ℕ) → pos < whitespace_end spans pos
unfolding whitespace_end
whitespace_end_grows spans pos = ground (arith, last_line_end_grows pos 0 (drop pos spans))

-- A round takes at least one span.
word_end_grows : (spans : Spans) (pos : ℕ) → pos < word_end spans pos
unfolding word_end
word_end_grows spans pos =
    or_else-Grows pos (contraction_end spans pos) _ (contraction_end-Grows spans pos) (
      or_else-Grows pos (letters_end spans pos) _ (letters_end-Grows spans pos) (
        or_else-Grows pos (number_end spans pos) _ (number_end-Grows spans pos) (
          or_else-Grows pos (others_end spans pos) _ (others_end-Grows spans pos)
            (whitespace_end_grows spans pos))))

pub data Slices (text : List ℕ) (words : List (List ℕ)) : Type 0 where
  slices :
      (texts : List (List ℕ))
      → words ≡ map byte_encoded texts
      → joined texts ≡ text
      → All AreBytes texts
      → Slices text words

add_word-slice :
    (text : List ℕ) (spans : Spans) (pos end : ℕ)
    → pos < end
    → add_word text spans pos end
      ≡ byte_encoded (
          take
            (span_end_byte spans end text - span_end_byte spans pos text)
            (drop (span_end_byte spans pos text) text))
        ∷ []
unfolding add_word
add_word-slice text spans pos end less =
    let later : leb end pos ≡ false = ground arith in rw later refl

Slices-cons :
    (text : List ℕ) (a b : ℕ) (words : List (List ℕ))
    → AreBytes text
    → a ≤ b
    → Slices (drop b text) words
    → Slices (drop a text) (byte_encoded (take (b - a) (drop a text)) ∷ words)
Slices-cons text a b words bytes le (slices texts same whole all) =
    let slice = take (b - a) (drop a text) in
    let slice_bytes = All-take _ (b - a) (drop a text) (All-drop _ a text bytes) in
    slices (slice ∷ texts) (ap (λ ws. byte_encoded slice ∷ ws) same)
      (ap (λ t. slice ++ t) whole ∙ take-drop-append a b text le) (slice_bytes, all)

module _ (text : List ℕ) (bytes : AreBytes text) (spans : Spans)
    (up : Ascending 0 spans (length text)) where
  words_from-Slices :
      (skip pos : ℕ) (rest : Spans)
      → pos + length rest ≡ length spans
      → Slices
          (drop (span_end_byte spans (pos + skip) text) text)
          (words_from text spans skip pos rest)
  unfolding words_from
  words_from-Slices skip pos [] size =
      let all_passed = span_end_byte_end spans text (pos + skip) (omega (arith, size)) in
      slices [] refl (sym (ap (λ n. drop n text) all_passed ∙ drop_all text)) tt
  words_from-Slices (suc skip) pos (span ∷ rest) size =
      let same : pos + 1 + skip ≡ pos + suc skip = omega arith in
      rw same at (words_from-Slices skip (pos + 1) rest (omega (arith, size)))
  words_from-Slices zero pos (span ∷ rest) size =
      let end = word_end spans pos in
      let less = word_end_grows spans pos in
      let passed : pos + 1 + (end - pos - 1) ≡ end = omega (arith, less) in
      let later =
        rw passed at (words_from-Slices (end - pos - 1) (pos + 1) rest (omega (arith, size))) in
      let begin : pos + 0 ≡ pos = omega arith in
      rw (begin, add_word-slice text spans pos end less)
        (Slices-cons text (span_end_byte spans pos text) (span_end_byte spans end text) _ bytes
          (span_end_byte_mono 0 spans text pos end up (omega (arith, less))) later)

spans_up : (text : List ℕ) → Ascending 0 (utf8_codepoint_spans text) (length text)
unfolding utf8_codepoint_spans
spans_up text =
    let same : 0 + length text ≡ length text = omega arith in
    rw same at (spans_from-Ascending 0 0 text)

span_end_byte_front : (text : List ℕ) → span_end_byte (utf8_codepoint_spans text) 0 text ≡ 0
unfolding span_end_byte utf8_codepoint_spans spans_from
span_end_byte_front [] = refl
span_end_byte_front (byte ∷ text) = refl

-- The words that a text is split into are its slices in the byte alphabet: joined in their order they are
-- the whole text.
pub split_qwen35_words-Slices :
    (text : List ℕ) → AreBytes text → Slices text (split_qwen35_words text)
unfolding split_qwen35_words
split_qwen35_words-Slices text bytes =
    let spans = utf8_codepoint_spans text in
    let up = spans_up text in
    let whole = words_from-Slices text bytes spans up 0 0 spans (omega arith) in
    rw (span_end_byte_front text) at whole
