-- ===== src/Reasoning/Thoughts.antt =====
-- Each round of `drain` in reasoning emits what is due: the text before the tag, without newlines at its
-- end, however it comes in chunks.
use kraken_infer.Base.{
  ℕ, ◌+◌, ◌≡◌, refl, sym, ap, ◌∙◌, ◌⊎◌, inl, inr, Bool, true, false, List, [], ◌++◌, append-nil,
  none, some, if◌then◌else◌, length, take, drop, is_empty, find, find-le, find-append, find-extend,
  find_suffix, find_prefix, not_here, take-append_le, drop-append_le, take-length-append, drop-add,
  Bool-cases, Option-cases, arith,
}
use mathlib.Core.Path.{subst}
use mathlib.Core.Option.{some-injective}
use kraken_infer.Reasoning.Tags.{think_start, think_end, trim_trailing_newlines, remove_newlines}
use kraken_infer.Reasoning.Split.{ReasoningFormat}
use kraken_infer.Reasoning.Stream.{
  ReasoningDelta, ReasoningStreamParser, Kind, reasoning, content, break_with, skip_newlines,
  emit_reasoning, reasoning_tags, reasoning_round, round_in, drain_round,
}
use kraken_infer.Reasoning.Deltas.{text_of, text_of-append_delta}
use kraken_infer.Reasoning.Loop.{Invariant, Leaves}
use kraken_infer.Reasoning.Sections.{remove_newlines-append, end_apart}
use kraken_infer.Reasoning.Rounds.{content_tags-Due, content_round-Due}
use kraken_infer.Reasoning.Phases.{Phase, in_reasoning, after_tag, in_content, Emits}
use kraken_infer.Reasoning.Holds.{skip_newlines_lem, remove_newlines-front}
use kraken_infer.Reasoning.Emitted.{emit_reasoning-Due}

module _ (later : List ℕ) (format : ReasoningFormat) (finished : Bool)
    (thoughts saids : List ℕ) where
  abbrev pub Due : Invariant
  Due = Emits later format finished thoughts saids

  -- A round in reasoning, with no newlines to skip.
  reasoning_tags-Due :
      (final : Bool) (p : ReasoningStreamParser) (deltas : List ReasoningDelta)
      (text after : List ℕ)
      → (final ≡ true → later ≡ [])
      → p.format ≡ format
      → p.finished ≡ finished
      → p.mode ≡ reasoning
      → p.skip_reasoning_prefix_newlines ≡ false
      → p.buffer ++ later ≡ text ++ (think_end ++ after)
      → find text think_end ≡ none
      → find (p.buffer ++ later) think_start ≡ none
      → text_of reasoning deltas ++ trim_trailing_newlines text ≡ thoughts
      → text_of content deltas ++ remove_newlines after ≡ saids
      → Leaves Due (reasoning_tags final p deltas)
  unfolding reasoning_tags
  reasoning_tags-Due final p deltas text after last same_format same_finished mode skip whole no_end
        no_start thoughts_are saids_are =
      let unopened =
        not_here p.buffer think_start (find_prefix p.buffer later think_start no_start) in
      let found : find (p.buffer ++ later) think_end ≡ some (length text) =
        ap (λ t. find t think_end) whole
        ∙ find-append 60 (drop 1 think_end) text after end_apart no_end in
      elim (Option-cases (find p.buffer think_end)) [
        | inl missing ↦
            simp (unopened, missing, reasoning_tags)
              (elim (Bool-cases final) [
                | inr more ↦
                    subst (λ b. Leaves Due (emit_reasoning b p deltas)) (sym more)
                      (emit_reasoning-Due later format finished thoughts saids p deltas text after
                        same_format same_finished mode skip whole no_end no_start thoughts_are
                        saids_are missing)
                | inl ends ↦
                    let all : p.buffer ++ later ≡ p.buffer =
                      ap (λ t. p.buffer ++ t) (last ends) ∙ append-nil p.buffer in
                    absurd (let f = sym (ap (λ t. find t think_end) all ∙ missing) ∙ found in cc)
              ])
        | inr here ↦
            let place : here.0 ≡ length text =
              some-injective _ _ (sym (find-extend p.buffer later think_end here.1) ∙ found) in
            let fits = find-le p.buffer think_end here.1 in
            let before : take here.0 p.buffer ≡ text =
              sym (take-append_le here.0 p.buffer later (omega arith))
              ∙ ap (take here.0) whole
              ∙ ap (λ k. take k (text ++ (think_end ++ after))) place
              ∙ take-length-append text (think_end ++ after) in
            let behind : drop (here.0 + 8) p.buffer ++ later ≡ after =
              sym (drop-append_le (here.0 + 8) p.buffer later (omega arith))
              ∙ ap (drop (here.0 + 8)) whole
              ∙ ap (λ k. drop (k + 8) (text ++ (think_end ++ after))) place
              ∙ drop-add text think_end after in
            let after_start : find after think_start ≡ none =
              find_suffix think_end after think_start (
                find_suffix text (think_end ++ after) think_start
                  (subst (λ t. find t think_start ≡ none) whole no_start)) in
            simp (unopened, here.1, reasoning_tags)
              (record {
                same_format = same_format;
                same_finished = same_finished;
                thought = [];
                said = remove_newlines after;
                phase =
                    after_tag refl refl
                      (subst (λ t. find t think_start ≡ none) (sym behind) after_start) refl
                      (ap remove_newlines (sym behind));
                thoughts_are =
                    append-nil _
                    ∙ text_of-append_delta reasoning reasoning deltas
                        (trim_trailing_newlines (take here.0 p.buffer))
                    ∙ ap (λ t. text_of reasoning deltas ++ trim_trailing_newlines t) before
                    ∙ thoughts_are;
                saids_are =
                    ap (λ t. t ++ remove_newlines after)
                      (text_of-append_delta content reasoning deltas
                        (trim_trailing_newlines (take here.0 p.buffer)))
                    ∙ saids_are;
              })
      ]

  reasoning_round-Due :
      (final : Bool) (p : ReasoningStreamParser) (deltas : List ReasoningDelta)
      (text after : List ℕ)
      → (final ≡ true → later ≡ [])
      → p.format ≡ format
      → p.finished ≡ finished
      → p.mode ≡ reasoning
      → (p.skip_reasoning_prefix_newlines ≡ false) ⊎ (remove_newlines text ≡ text)
      → p.buffer ++ later ≡ text ++ (think_end ++ after)
      → find text think_end ≡ none
      → find (p.buffer ++ later) think_start ≡ none
      → text_of reasoning deltas ++ trim_trailing_newlines text ≡ thoughts
      → text_of content deltas ++ remove_newlines after ≡ saids
      → is_empty p.buffer ≡ false
      → Leaves Due (reasoning_round final p deltas)
  unfolding reasoning_round
  reasoning_round-Due final p deltas text after last same_format same_finished mode skip whole
        no_end no_start thoughts_are saids_are filled =
      elim (Bool-cases p.skip_reasoning_prefix_newlines) [
        | inr stays ↦ simp stays (
            reasoning_tags-Due final p deltas text after last same_format same_finished mode stays
              whole no_end no_start thoughts_are saids_are)
        | inl skips ↦
            let fixed : remove_newlines text ≡ text = elim skip [
              | inl never ↦ absurd (let f = sym skips ∙ never in cc)
              | inr same ↦ same
            ] in
            let front : remove_newlines (p.buffer ++ later) ≡ p.buffer ++ later =
              ap remove_newlines whole
              ∙ remove_newlines-append text (drop 1 think_end ++ after)
              ∙ ap (λ t. t ++ (think_end ++ after)) fixed
              ∙ sym whole in
            let kept : skip_newlines p.buffer ≡ p.buffer =
              skip_newlines_lem p.buffer ∙ remove_newlines-front p.buffer later filled front in
            let at =
              λ (b : List ℕ). record p { buffer = b; skip_reasoning_prefix_newlines = false } in
            simp skips (
              subst
                (λ b. Leaves Due (
                  if is_empty b
                  then break_with (at b) deltas
                  else reasoning_tags final (at b) deltas))
                (sym kept)
                (rw filled (
                  reasoning_tags-Due final (at p.buffer) deltas text after last same_format
                    same_finished mode refl whole no_end no_start thoughts_are saids_are)))
      ]

  round_in-Due :
      (mode : Kind) (final : Bool) (p : ReasoningStreamParser) (deltas : List ReasoningDelta)
      (thought said : List ℕ)
      → p.mode ≡ mode
      → (final ≡ true → later ≡ [])
      → is_empty p.buffer ≡ false
      → p.format ≡ format
      → p.finished ≡ finished
      → text_of reasoning deltas ++ thought ≡ thoughts
      → text_of content deltas ++ said ≡ saids
      → Phase later p thought said
      → Leaves Due (round_in mode final p deltas)
  unfolding round_in
  round_in-Due reasoning final p deltas thought said is last filled f g t c
        (in_reasoning text after mode whole no_end no_start skip thought_is said_is) =
      reasoning_round-Due final p deltas text after last f g mode skip whole no_end no_start
        (ap (λ x. text_of reasoning deltas ++ x) (sym thought_is) ∙ t)
        (ap (λ x. text_of content deltas ++ x) (sym said_is) ∙ c) filled
  round_in-Due reasoning final p deltas thought said is last filled f g t c
        (after_tag mode _ _ _ _) =
      absurd (let x = sym is ∙ mode in cc)
  round_in-Due reasoning final p deltas thought said is last filled f g t c
        (in_content mode _ _ _ _) =
      absurd (let x = sym is ∙ mode in cc)
  round_in-Due content final p deltas thought said is last filled f g t c
        (in_reasoning _ _ mode _ _ _ _ _ _) =
      absurd (let x = sym is ∙ mode in cc)
  round_in-Due content final p deltas thought said is last filled f g t c
        (after_tag mode skip missing thought_is said_is) =
      content_round-Due later format finished thoughts saids final p deltas f g mode skip missing
        (sym (append-nil (text_of reasoning deltas))
          ∙ ap (λ x. text_of reasoning deltas ++ x) (sym thought_is)
          ∙ t)
        (ap (λ x. text_of content deltas ++ x) (sym said_is) ∙ c)
  round_in-Due content final p deltas thought said is last filled f g t c
        (in_content mode skip missing thought_is said_is) =
      simp skip (
        content_tags-Due later format finished thoughts saids final p deltas f g mode skip missing
          (sym (append-nil (text_of reasoning deltas))
            ∙ ap (λ x. text_of reasoning deltas ++ x) (sym thought_is)
            ∙ t)
          (ap (λ x. text_of content deltas ++ x) (sym said_is) ∙ c))

  pub drain_round-Due :
      (final : Bool) (p : ReasoningStreamParser) (deltas : List ReasoningDelta)
      → (final ≡ true → later ≡ [])
      → is_empty p.buffer ≡ false
      → Due p deltas
      → Leaves Due (drain_round final p deltas)
  unfolding drain_round
  drain_round-Due final p deltas last filled due =
      round_in-Due p.mode final p deltas due.thought due.said refl last filled due.same_format
        due.same_finished due.thoughts_are due.saids_are due.phase
