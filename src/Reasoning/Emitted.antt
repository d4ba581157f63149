-- ===== src/Reasoning/Emitted.antt =====
-- A round of `drain` in reasoning where the buffer holds no tag: what is emitted lies in the text before
-- the tag.
use kraken_infer.Base.{
  ℕ, ◌+◌, ◌-◌, ◌≤◌, ◌≡◌, refl, sym, ap, ◌∙◌, inl, inr, Bool, false, List, ◌++◌, append_assoc, none,
  some, ◌==◌, leb, length, take, drop, length-take, take-append-drop, find, find-append,
  find_suffix, take-append_le, drop-append_le, take-take, leb→le, Bool-cases, arith,
}
use mathlib.Core.Path.{subst}
use kraken_infer.Reasoning.Tags.{
  think_start, think_end, trim_trailing_newlines, remove_newlines, trailing_newline_count,
  tag_prefix_suffix_size,
}
use kraken_infer.Reasoning.Split.{ReasoningFormat}
use kraken_infer.Reasoning.Stream.{
  ReasoningDelta, ReasoningStreamParser, reasoning, content, append_delta, emit_reasoning,
}
use kraken_infer.Reasoning.Deltas.{text_of, text_of-append_delta}
use kraken_infer.Reasoning.Drain.{tag_prefix_suffix_size-le, trailing_newline_count-le}
use kraken_infer.Reasoning.Loop.{Invariant, Leaves}
use kraken_infer.Reasoning.Sections.{end_apart}
use kraken_infer.Reasoning.Phases.{in_reasoning, Emits, split_buffer}
use kraken_infer.Reasoning.Holds.{
  tag_prefix_suffix_size-covers, trim_trailing_newlines-append, trailing_newline_count-take,
}

module _ (later : List ℕ) (format : ReasoningFormat) (finished : Bool)
    (thoughts saids : List ℕ) where
  abbrev Due : Invariant
  Due = Emits later format finished thoughts saids

  -- Reasoning that is emitted before its tag came: it lies in the text before the tag, and does not end
  -- with a newline.
  emitted_reasoning :
      (n : ℕ) (p : ReasoningStreamParser) (deltas : List ReasoningDelta) (text after : List ℕ)
      → p.format ≡ format
      → p.finished ≡ finished
      → p.mode ≡ reasoning
      → p.skip_reasoning_prefix_newlines ≡ false
      → p.buffer ++ later ≡ text ++ (think_end ++ after)
      → find text think_end ≡ none
      → find (p.buffer ++ later) think_start ≡ none
      → text_of reasoning deltas ++ trim_trailing_newlines text ≡ thoughts
      → text_of content deltas ++ remove_newlines after ≡ saids
      → n ≤ length text
      → n ≤ length p.buffer
      → trailing_newline_count (take n p.buffer) ≡ 0
      → Due
          (record p { buffer = drop n p.buffer })
          (append_delta deltas reasoning (take n p.buffer))
  emitted_reasoning n p deltas text after same_format same_finished mode skip whole no_end no_start
        thoughts_are saids_are in_text in_buffer solid =
      let first : take n p.buffer ≡ take n text =
        sym (take-append_le n p.buffer later in_buffer)
        ∙ ap (take n) whole
        ∙ take-append_le n text (think_end ++ after) in_text in
      let rest : drop n p.buffer ++ later ≡ drop n text ++ (think_end ++ after) =
        sym (drop-append_le n p.buffer later in_buffer)
        ∙ ap (drop n) whole
        ∙ drop-append_le n text (think_end ++ after) in_text in
      let split : take n p.buffer ++ drop n text ≡ text =
        ap (λ t. t ++ drop n text) first ∙ take-append-drop n text in
      let trimmed : take n p.buffer ++ trim_trailing_newlines (drop n text)
          ≡ trim_trailing_newlines text =
        sym (trim_trailing_newlines-append (take n p.buffer) (drop n text) solid)
        ∙ ap trim_trailing_newlines split in
      record {
        same_format = same_format;
        same_finished = same_finished;
        thought = trim_trailing_newlines (drop n text);
        said = remove_newlines after;
        phase =
            in_reasoning (drop n text) after mode rest
              (find_suffix (take n text) (drop n text) think_end
                (subst (λ t. find t think_end ≡ none) (sym (take-append-drop n text)) no_end))
              (find_suffix (take n p.buffer) _ think_start (
                subst (λ t. find t think_start ≡ none) (sym (split_buffer n p.buffer later))
                  no_start))
              (inl skip) refl refl;
        thoughts_are =
            ap (λ t. t ++ trim_trailing_newlines (drop n text))
              (text_of-append_delta reasoning reasoning deltas (take n p.buffer))
            ∙ append_assoc (text_of reasoning deltas) (take n p.buffer)
                (trim_trailing_newlines (drop n text))
            ∙ ap (λ t. text_of reasoning deltas ++ t) trimmed
            ∙ thoughts_are;
        saids_are =
            ap (λ t. t ++ remove_newlines after)
              (text_of-append_delta content reasoning deltas (take n p.buffer))
            ∙ saids_are;
      }

  pub emit_reasoning-Due :
      (p : ReasoningStreamParser) (deltas : List ReasoningDelta) (text after : List ℕ)
      → p.format ≡ format
      → p.finished ≡ finished
      → p.mode ≡ reasoning
      → p.skip_reasoning_prefix_newlines ≡ false
      → p.buffer ++ later ≡ text ++ (think_end ++ after)
      → find text think_end ≡ none
      → find (p.buffer ++ later) think_start ≡ none
      → text_of reasoning deltas ++ trim_trailing_newlines text ≡ thoughts
      → text_of content deltas ++ remove_newlines after ≡ saids
      → find p.buffer think_end ≡ none
      → Leaves Due (emit_reasoning false p deltas)
  unfolding emit_reasoning
  emit_reasoning-Due p deltas text after same_format same_finished mode skip whole no_end no_start
        thoughts_are saids_are missing =
      let size = length p.buffer in
      let tag_hold = tag_prefix_suffix_size p.buffer think_end in
      let solid = take (size - tag_hold) p.buffer in
      let newline_hold = trailing_newline_count solid in
      let n = size - (tag_hold + newline_hold) in
      let tag_le = (tag_prefix_suffix_size-le p.buffer think_end).0 in
      let newline_le = trailing_newline_count-le solid in
      let solid_size = length-take (size - tag_hold) p.buffer in
      let found : find (p.buffer ++ later) think_end ≡ some (length text) =
        ap (λ t. find t think_end) whole
        ∙ find-append 60 (drop 1 think_end) text after end_apart no_end in
      let in_text : n ≤ length text = elim (Bool-cases (leb (length text) size)) [
        | inl le ↦ omega (
          arith,
          tag_prefix_suffix_size-covers p.buffer later think_end (length text) found missing
              (leb→le (length text) size le),
        )
        | inr gt ↦ ground arith
      ] in
      let shorter : n ≡ length solid - newline_hold = omega arith in
      let ends_solid : trailing_newline_count (take n p.buffer) ≡ 0 =
        ap trailing_newline_count (
          sym (take-take n (size - tag_hold) p.buffer (omega arith))
          ∙ ap (λ k. take k solid) shorter)
        ∙ trailing_newline_count-take solid in
      elim (Bool-cases (size == tag_hold + newline_hold)) [
        | inl same ↦ simp same (record {
          same_format = same_format;
          same_finished = same_finished;
          thought = trim_trailing_newlines text;
          said = remove_newlines after;
          phase = in_reasoning text after mode whole no_end no_start (inl skip) refl refl;
          thoughts_are = thoughts_are;
          saids_are = saids_are;
        })
        | inr more ↦ simp more (
            emitted_reasoning n p deltas text after same_format same_finished mode skip whole no_end
              no_start thoughts_are saids_are in_text (omega arith) ends_solid)
      ]
