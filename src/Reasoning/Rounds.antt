-- ===== src/Reasoning/Rounds.antt =====
-- Each round of `drain` in content emits what is due, without the newlines behind the tag.
use kraken_infer.Base.{
  ℕ, ◌-◌, ◌≡◌, refl, sym, ap, ◌∙◌, inl, inr, Bool, true, false, List, [], ◌++◌, append-nil, none,
  ◌==◌, if◌then◌else◌, length, is_empty, find, find_suffix, find_prefix, Bool-cases,
}
use mathlib.Core.Path.{subst}
use kraken_infer.Reasoning.Tags.{think_start, remove_newlines, tag_prefix_suffix_size}
use kraken_infer.Reasoning.Split.{ReasoningFormat}
use kraken_infer.Reasoning.Stream.{
  ReasoningDelta, ReasoningStreamParser, reasoning, content, skip_newlines, emit_content,
  content_tags, content_round,
}
use kraken_infer.Reasoning.Deltas.{text_of}
use kraken_infer.Reasoning.Drain.{is_empty-eq}
use kraken_infer.Reasoning.Loop.{Invariant, Leaves}
use kraken_infer.Reasoning.Sections.{find-remove_newlines}
use kraken_infer.Reasoning.Phases.{after_tag, in_content, Emits, emitted_content}
use kraken_infer.Reasoning.Holds.{
  skip_newlines_lem, remove_newlines-append_empty, remove_newlines-append_filled,
}

module _ (later : List ℕ) (format : ReasoningFormat) (finished : Bool)
    (thoughts saids : List ℕ) where
  abbrev pub Due : Invariant
  Due = Emits later format finished thoughts saids

  -- A round in content, with no newlines to skip.
  pub content_tags-Due :
      (final : Bool) (p : ReasoningStreamParser) (deltas : List ReasoningDelta)
      → p.format ≡ format
      → p.finished ≡ finished
      → p.mode ≡ content
      → p.skip_content_prefix_newlines ≡ false
      → find (p.buffer ++ later) think_start ≡ none
      → text_of reasoning deltas ≡ thoughts
      → text_of content deltas ++ (p.buffer ++ later) ≡ saids
      → Leaves Due (content_tags final p deltas)
  unfolding content_tags emit_content
  content_tags-Due final p deltas same_format same_finished mode skip missing thoughts_are
        saids_are =
      let here = find_prefix p.buffer later think_start missing in
      let hold = if final then 0 else tag_prefix_suffix_size p.buffer think_start in
      elim (Bool-cases (length p.buffer == hold)) [
        | inl same ↦
            simp (here, content_tags, same)
              (record {
                same_format = same_format;
                same_finished = same_finished;
                thought = [];
                said = p.buffer ++ later;
                phase = in_content mode skip missing refl refl;
                thoughts_are = append-nil (text_of reasoning deltas) ∙ thoughts_are;
                saids_are = saids_are;
              })
        | inr more ↦
            simp (here, content_tags, more)
              (emitted_content later format finished thoughts saids p deltas same_format
                same_finished (length p.buffer - hold) mode skip missing thoughts_are saids_are)
      ]

  -- A round in content behind the tag, where newlines are skipped first.
  pub content_round-Due :
      (final : Bool) (p : ReasoningStreamParser) (deltas : List ReasoningDelta)
      → p.format ≡ format
      → p.finished ≡ finished
      → p.mode ≡ content
      → p.skip_content_prefix_newlines ≡ true
      → find (p.buffer ++ later) think_start ≡ none
      → text_of reasoning deltas ≡ thoughts
      → text_of content deltas ++ remove_newlines (p.buffer ++ later) ≡ saids
      → Leaves Due (content_round final p deltas)
  unfolding content_round
  content_round-Due final p deltas same_format same_finished mode skip missing thoughts_are
        saids_are =
      let same = skip_newlines_lem p.buffer in
      elim (Bool-cases (is_empty (skip_newlines p.buffer))) [
        | inl nothing ↦
            let gone = is_empty-eq (skip_newlines p.buffer) nothing in
            let left = remove_newlines-append_empty p.buffer later (sym same ∙ gone) in
            simp (skip, nothing)
              (record {
                same_format = same_format;
                same_finished = same_finished;
                thought = [];
                said = remove_newlines later;
                phase =
                    after_tag mode refl
                      (subst (λ b. find (b ++ later) think_start ≡ none) (sym gone)
                        (find_suffix p.buffer later think_start missing))
                      refl (ap (λ b. remove_newlines (b ++ later)) (sym gone));
                thoughts_are = append-nil (text_of reasoning deltas) ∙ thoughts_are;
                saids_are = ap (λ t. text_of content deltas ++ t) (sym left) ∙ saids_are;
              })
        | inr filled ↦
            let left : remove_newlines (p.buffer ++ later) ≡ skip_newlines p.buffer ++ later =
              remove_newlines-append_filled p.buffer later
                (subst (λ b. is_empty b ≡ false) same filled)
              ∙ ap (λ b. b ++ later) (sym same) in
            simp (skip, filled)
              (content_tags-Due final
                (record p { buffer = skip_newlines p.buffer; skip_content_prefix_newlines = false })
                deltas same_format same_finished mode refl
                (subst (λ b. find b think_start ≡ none) left
                  (find-remove_newlines (p.buffer ++ later) think_start missing))
                thoughts_are (ap (λ t. text_of content deltas ++ t) (sym left) ∙ saids_are))
      ]
