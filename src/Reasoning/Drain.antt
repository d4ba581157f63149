-- ===== src/Reasoning/Drain.antt =====
-- The loop of `drain` ends: each round that continues takes bytes off the buffer.
use kraken_infer.Base.{
  ℕ, zero, suc, ◌+◌, ◌-◌, ◌≤◌, ◌<◌, min, ◌≡◌, refl, inl, inr, Bool, true, false, List, [], ◌∷◌,
  Option, some, ◌==◌, length, take, drop, length-take, length-drop, is_empty, starts_with,
  starts_with-le, find, find-le, Bool-cases, Option-cases, arith, string_eq,
}
use kraken_infer.Reasoning.Tags.{
  think_start, think_end, leading_newline_count, trailing_newline_count, prefix_suffix_from,
  tag_prefix_suffix_size,
}
use kraken_infer.Reasoning.Stream.{
  ReasoningDelta, ReasoningStreamParser, Kind, reasoning, content, Round, continue_with, break_with,
  skip_newlines, emit_reasoning, emit_content, reasoning_tags, reasoning_round, content_tags,
  content_round, round_in, drain_round, drain_loop, drain,
}
use kraken_infer.Reasoning.Split.{reasoning_format_extracts_content}

pub trailing_newline_count-le : (text : List ℕ) → trailing_newline_count text ≤ length text
unfolding trailing_newline_count
trailing_newline_count-le [] = omega arith
trailing_newline_count-le (ch ∷ text) = ground (arith, trailing_newline_count-le text)

prefix_suffix_from-le : (text tag : List ℕ) (size : ℕ) → prefix_suffix_from text tag size ≤ size
unfolding prefix_suffix_from
prefix_suffix_from-le text tag zero = omega arith
prefix_suffix_from-le text tag (suc size) =
    elim (Bool-cases (string_eq (drop (length text - suc size) text) (take (suc size) tag))) [
      | inl here ↦ rw here (omega arith)
      | inr gone ↦ rw gone (omega (arith, prefix_suffix_from-le text tag size))
    ]

pub tag_prefix_suffix_size-le :
    (text tag : List ℕ)
    → (tag_prefix_suffix_size text tag ≤ length text)
      × (tag_prefix_suffix_size text tag ≤ length tag - 1)
unfolding tag_prefix_suffix_size
tag_prefix_suffix_size-le text tag =
    let le = prefix_suffix_from-le text tag (min (length text) (length tag - 1)) in
    (omega arith, omega arith)

-- What a round may leave: less in the buffer if the loop goes on, and otherwise what a later chunk can
-- still complete, which at the end of the text is nothing.
abbrev IsProgress : Bool → ℕ → Round → Type 0
IsProgress final size (continue_with p deltas) = length p.buffer < size
IsProgress final size (break_with p deltas) = final ≡ true → p.buffer ≡ []

-- What is emitted leaves the buffer.
drop_emitted :
    (buffer : List ℕ) (hold : ℕ)
    → hold ≤ length buffer
    → (length buffer == hold) ≡ false
    → length (drop (length buffer - hold) buffer) < length buffer
drop_emitted buffer hold le more =
    let rest = length-drop (length buffer - hold) buffer in ground arith

emit_reasoning-IsProgress :
    (final : Bool) (p : ReasoningStreamParser) (deltas : List ReasoningDelta)
    → 0 < length p.buffer
    → IsProgress final (length p.buffer) (emit_reasoning final p deltas)
unfolding emit_reasoning
emit_reasoning-IsProgress true p deltas filled = elim (Bool-cases (length p.buffer == 0)) [
  | inl empty ↦ absurd (ground arith)
  | inr more ↦ rw more (drop_emitted p.buffer 0 (omega arith) more)
]
emit_reasoning-IsProgress false p deltas filled =
    let tag_hold = tag_prefix_suffix_size p.buffer think_end in
    let newline_hold = trailing_newline_count (take (length p.buffer - tag_hold) p.buffer) in
    let (tag_le, _) = tag_prefix_suffix_size-le p.buffer think_end in
    let newline_le = trailing_newline_count-le (take (length p.buffer - tag_hold) p.buffer) in
    let taken = length-take (length p.buffer - tag_hold) p.buffer in
    elim (Bool-cases (length p.buffer == tag_hold + newline_hold)) [
      | inl same ↦ rw same (λ e. absurd (ground arith))
      | inr more ↦ rw more (drop_emitted p.buffer (tag_hold + newline_hold) (omega arith) more)
    ]

reasoning_tags-IsProgress :
    (final : Bool) (p : ReasoningStreamParser) (deltas : List ReasoningDelta)
    → 0 < length p.buffer
    → IsProgress final (length p.buffer) (reasoning_tags final p deltas)
unfolding reasoning_tags
reasoning_tags-IsProgress final p deltas filled =
    elim (Bool-cases (starts_with p.buffer think_start)) [
      | inl opens ↦
          rw opens
            (omega (arith, starts_with-le p.buffer think_start opens, length-drop 7 p.buffer))
      | inr other ↦ elim (Option-cases (find p.buffer think_end)) [
        | inl missing ↦ rw (other, missing) (emit_reasoning-IsProgress final p deltas filled)
        | inr found ↦
            rw (other, found.1)
              (omega
                (arith, find-le p.buffer think_end found.1, length-drop (found.0 + 8) p.buffer))
      ]
    ]

emit_content-IsProgress :
    (final : Bool) (p : ReasoningStreamParser) (deltas : List ReasoningDelta)
    → 0 < length p.buffer
    → IsProgress final (length p.buffer) (emit_content final p deltas)
unfolding emit_content
emit_content-IsProgress true p deltas filled = elim (Bool-cases (length p.buffer == 0)) [
  | inl empty ↦ absurd (ground arith)
  | inr more ↦ rw more (drop_emitted p.buffer 0 (omega arith) more)
]
emit_content-IsProgress false p deltas filled =
    let hold = tag_prefix_suffix_size p.buffer think_start in
    let (le, _) = tag_prefix_suffix_size-le p.buffer think_start in
    elim (Bool-cases (length p.buffer == hold)) [
      | inl same ↦ rw same (λ e. absurd (ground arith))
      | inr more ↦ rw more (drop_emitted p.buffer hold le more)
    ]

content_tags-IsProgress :
    (final : Bool) (p : ReasoningStreamParser) (deltas : List ReasoningDelta)
    → 0 < length p.buffer
    → IsProgress final (length p.buffer) (content_tags final p deltas)
unfolding content_tags
content_tags-IsProgress final p deltas filled = elim (Option-cases (find p.buffer think_start)) [
  | inr found ↦
      rw (found.1, content_tags)
        (omega (arith, find-le p.buffer think_start found.1, length-drop (found.0 + 7) p.buffer))
  | inl missing ↦ rw (missing, content_tags) (emit_content-IsProgress final p deltas filled)
]

skip_newlines-le : (buffer : List ℕ) → length (skip_newlines buffer) ≤ length buffer
unfolding skip_newlines
skip_newlines-le buffer = omega (arith, length-drop (leading_newline_count buffer) buffer)

pub is_empty-eq : (buffer : List ℕ) → is_empty buffer ≡ true → buffer ≡ []
is_empty-eq [] e = refl
is_empty-eq (c ∷ buffer) e = cc

pub positive_length : (buffer : List ℕ) → is_empty buffer ≡ false → 0 < length buffer
positive_length [] e = absurd (ground arith)
positive_length (c ∷ buffer) e = omega arith

IsProgress-mono :
    (final : Bool) (small large : ℕ) (round : Round)
    → small ≤ large
    → IsProgress final small round
    → IsProgress final large round
IsProgress-mono final small large (continue_with p deltas) le progress = omega arith
IsProgress-mono final small large (break_with p deltas) le progress = progress

reasoning_round-IsProgress :
    (final : Bool) (p : ReasoningStreamParser) (deltas : List ReasoningDelta)
    → 0 < length p.buffer
    → IsProgress final (length p.buffer) (reasoning_round final p deltas)
unfolding reasoning_round
reasoning_round-IsProgress final p deltas filled =
    let skipped : ReasoningStreamParser = record p {
      buffer = skip_newlines p.buffer;
      skip_reasoning_prefix_newlines = false;
    } in
    elim (Bool-cases p.skip_reasoning_prefix_newlines) [
      | inr stays ↦ simp stays (reasoning_tags-IsProgress final p deltas filled)
      | inl skips ↦ elim (Bool-cases (is_empty (skip_newlines p.buffer))) [
        | inl nothing ↦ simp (skips, nothing) (λ e. is_empty-eq (skip_newlines p.buffer) nothing)
        | inr left ↦
            simp (skips, left)
              (IsProgress-mono final _ _ (reasoning_tags final skipped deltas)
                (skip_newlines-le p.buffer)
                (reasoning_tags-IsProgress final skipped deltas (positive_length _ left)))
      ]
    ]

content_round-IsProgress :
    (final : Bool) (p : ReasoningStreamParser) (deltas : List ReasoningDelta)
    → 0 < length p.buffer
    → IsProgress final (length p.buffer) (content_round final p deltas)
unfolding content_round
content_round-IsProgress final p deltas filled =
    let skipped : ReasoningStreamParser = record p {
      buffer = skip_newlines p.buffer;
      skip_content_prefix_newlines = false;
    } in
    elim (Bool-cases p.skip_content_prefix_newlines) [
      | inr stays ↦ simp stays (content_tags-IsProgress final p deltas filled)
      | inl skips ↦ elim (Bool-cases (is_empty (skip_newlines p.buffer))) [
        | inl nothing ↦ simp (skips, nothing) (λ e. is_empty-eq (skip_newlines p.buffer) nothing)
        | inr left ↦
            simp (skips, left)
              (IsProgress-mono final _ _ (content_tags final skipped deltas)
                (skip_newlines-le p.buffer)
                (content_tags-IsProgress final skipped deltas (positive_length _ left)))
      ]
    ]

round_in-IsProgress :
    (mode : Kind) (final : Bool) (p : ReasoningStreamParser) (deltas : List ReasoningDelta)
    → 0 < length p.buffer
    → IsProgress final (length p.buffer) (round_in mode final p deltas)
unfolding round_in
round_in-IsProgress reasoning final p deltas filled =
    reasoning_round-IsProgress final p deltas filled
round_in-IsProgress content final p deltas filled = content_round-IsProgress final p deltas filled

-- The loop returns, and at the end of the text it leaves nothing in the buffer.
abbrev pub Returns : Bool → Option (ReasoningStreamParser × List ReasoningDelta) → Type 0
Returns final result =
    (p : ReasoningStreamParser) × (deltas : List ReasoningDelta) × (result ≡ some (p, deltas))
    × (final ≡ true → p.buffer ≡ [])

pub drain_loop-Returns :
    (fuel : ℕ) (final : Bool) (p : ReasoningStreamParser) (deltas : List ReasoningDelta)
    → length p.buffer < fuel
    → Returns final (drain_loop fuel final p deltas)
unfolding drain_loop drain_round
drain_loop-Returns zero final p deltas enough = absurd (omega arith)
drain_loop-Returns (suc fuel) final p deltas enough = elim (Bool-cases (is_empty p.buffer)) [
  | inl empty ↦ rw empty (p, deltas, refl, λ e. is_empty-eq p.buffer empty)
  | inr filled ↦ rw filled (
      go (round_in p.mode final p deltas)
        (round_in-IsProgress p.mode final p deltas (positive_length p.buffer filled))
        (drain_loop-Returns fuel final))
]
  where
    go :
        (round : Round)
        → IsProgress final (length p.buffer) round
        → ((p' : ReasoningStreamParser) (deltas' : List ReasoningDelta)
            → length p'.buffer < fuel
            → Returns final (drain_loop fuel final p' deltas'))
        → Returns final (elim round [
          | continue_with p' deltas' ↦ drain_loop fuel final p' deltas'
          | break_with p' deltas' ↦ some (p', deltas')
        ])
    go (continue_with p' deltas') falls rest = rest p' deltas' (omega arith)
    go (break_with p' deltas') ends rest = (p', deltas', refl, ends)

-- A call of `drain` always returns, so its loop ends, and the last call leaves nothing in the buffer.
pub drain_total :
    (final : Bool) (p : ReasoningStreamParser)
    → (p' : ReasoningStreamParser) × (deltas : List ReasoningDelta) × (drain final p
        ≡ some (p', deltas))
      × (final ≡ true → p'.buffer ≡ [])
unfolding drain
drain_total final p = elim (Bool-cases (reasoning_format_extracts_content p.format)) [
  | inl extracts ↦ rw extracts (drain_loop-Returns (suc (length p.buffer)) final p [] (omega arith))
  | inr plain ↦ rw plain (record p { buffer = [] }, _, refl, λ e. refl)
]
