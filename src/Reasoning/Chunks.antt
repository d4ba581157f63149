-- ===== src/Reasoning/Chunks.antt =====
-- A stream of chunks emits what the split of the whole text has, however the text is cut.
use kraken_infer.Base.{
  ℕ, suc, ◌≡◌, refl, sym, ap, ◌∙◌, inr, Bool, true, false, List, [], ◌∷◌, ◌++◌, append_assoc,
  append-nil, Option, none, some, if_else, length, length-append, starts_with, find, not_here,
  arith,
}
use mathlib.Core.Path.{subst}
use mathlib.Core.Option
use kraken_infer.Reasoning.Tags.{think_start, think_end, trim_trailing_newlines, remove_newlines}
use kraken_infer.Reasoning.Split.{
  ReasoningFormat, reasoning_format_extracts_content, split_reasoning_content,
}
use kraken_infer.Reasoning.Stream.{
  ReasoningDelta, ReasoningStreamParser, reasoning, content, stream_parser, drain, push, finish,
}
use kraken_infer.Reasoning.Deltas.{text_of, text_of-append}
use kraken_infer.Reasoning.Drain.{drain_loop-Returns}
use kraken_infer.Reasoning.Loop.{drain_loop-inv}
use kraken_infer.Reasoning.Sections.{split_thinking}
use kraken_infer.Reasoning.Phases.{Phase, in_reasoning, after_tag, in_content, Emits}
use kraken_infer.Reasoning.Thoughts.{drain_round-Due}

-- The whole text.
abbrev pub joined : List (List ℕ) → List ℕ
joined [] = []
joined (chunk ∷ chunks) = chunk ++ joined chunks

-- All chunks pushed in order, and `finish`: the deltas of all calls.
unfoldable pub stream : List (List ℕ) → ReasoningStreamParser → Option (List ReasoningDelta)
unfolding push finish
stream [] p = Option.map (λ result. result.1) (finish p)
stream (chunk ∷ chunks) p = elim (push chunk p) [
  | none ↦ none
  | some result ↦ Option.map (λ rest. result.1 ++ rest) (stream chunks result.0)
]

stream_finish :
    (p q : ReasoningStreamParser) (deltas : List ReasoningDelta)
    → p.finished ≡ false
    → drain true (record p { finished = true }) ≡ some (q, deltas)
    → stream [] p ≡ some deltas
unfolding stream finish
stream_finish p q deltas going drained =
    let finished : finish p ≡ some (q, deltas) = if_else p.finished _ _ going ∙ drained in
    rw finished

stream_push :
    (chunk : List ℕ) (chunks : List (List ℕ)) (p q : ReasoningStreamParser)
    (deltas rest : List ReasoningDelta)
    → p.finished ≡ false
    → drain false (record p { buffer = p.buffer ++ chunk }) ≡ some (q, deltas)
    → stream chunks q ≡ some rest
    → stream (chunk ∷ chunks) p ≡ some (deltas ++ rest)
unfolding stream push
stream_push chunk chunks p q deltas rest going drained streamed =
    let pushed : push chunk p ≡ some (q, deltas) = if_else p.finished _ _ going ∙ drained in
    rw (pushed, stream, streamed)

-- What a call of `drain` leaves, and what it emits.
record Drained (final : Bool) (later : List ℕ) (p : ReasoningStreamParser) (thought said : List ℕ)
    : Type 0 where
  left : ReasoningStreamParser
  deltas : List ReasoningDelta
  returns : drain final p ≡ some (left, deltas)
  at_end : final ≡ true → left.buffer ≡ []
  due : Emits later p.format p.finished thought said left deltas

drain-Drained :
    (final : Bool) (later : List ℕ) (p : ReasoningStreamParser) (thought said : List ℕ)
    → reasoning_format_extracts_content p.format ≡ true
    → (final ≡ true → later ≡ [])
    → Phase later p thought said
    → Drained final later p thought said
unfolding drain
drain-Drained final later p thought said extracts last phase =
    let (p', deltas, returned, ends) =
      drain_loop-Returns (suc (length p.buffer)) final p [] (omega arith) in
    let start : Emits later p.format p.finished thought said p [] = record {
      same_format = refl;
      same_finished = refl;
      thought = thought;
      said = said;
      phase = phase;
      thoughts_are = refl;
      saids_are = refl;
    } in
    record {
      left = p';
      deltas = deltas;
      returns = rw extracts returned;
      at_end = ends;
      due =
          drain_loop-inv (Emits later p.format p.finished thought said) final
            (λ q ds filled due.
              drain_round-Due later p.format p.finished thought said final q ds last filled due)
            (suc (length p.buffer)) p [] p' deltas start returned;
    }

-- A chunk moves from what is to come into the buffer.
Phase-push :
    (chunk later : List ℕ) (p : ReasoningStreamParser) (thought said : List ℕ)
    → Phase (chunk ++ later) p thought said
    → Phase later (record p { buffer = p.buffer ++ chunk }) thought said
Phase-push chunk later p thought said
      (in_reasoning text after mode whole no_end no_start skip t c) =
    let moved = append_assoc p.buffer chunk later in
    in_reasoning text after mode (moved ∙ whole) no_end
      (subst (λ b. find b think_start ≡ none) (sym moved) no_start) skip t c
Phase-push chunk later p thought said (after_tag mode skip missing t c) =
    let moved = append_assoc p.buffer chunk later in
    after_tag mode skip (subst (λ b. find b think_start ≡ none) (sym moved) missing) t
      (c ∙ ap remove_newlines (sym moved))
Phase-push chunk later p thought said (in_content mode skip missing t c) =
    let moved = append_assoc p.buffer chunk later in
    in_content mode skip (subst (λ b. find b think_start ≡ none) (sym moved) missing) t
      (c ∙ sym moved)

Phase-finish :
    (p : ReasoningStreamParser) (thought said : List ℕ)
    → Phase [] p thought said
    → Phase [] (record p { finished = true }) thought said
Phase-finish p thought said (in_reasoning text after mode whole no_end no_start skip t c) =
    in_reasoning text after mode whole no_end no_start skip t c
Phase-finish p thought said (after_tag mode skip missing t c) = after_tag mode skip missing t c
Phase-finish p thought said (in_content mode skip missing t c) = in_content mode skip missing t c

-- At the end of the text nothing is left to emit.
Phase-end :
    (p : ReasoningStreamParser) (thought said : List ℕ)
    → p.buffer ≡ []
    → Phase [] p thought said
    → (thought ≡ []) × (said ≡ [])
unfolding remove_newlines
Phase-end p thought said empty (in_reasoning text after mode whole no_end no_start skip t c) =
    let size = ap (length {A = ℕ}) (ap (λ b. b ++ []) (sym empty) ∙ whole) in
    absurd (omega (arith, length-append {0} text (think_end ++ after)))
Phase-end p thought said empty (after_tag mode skip missing t c) =
    (t, c ∙ ap (λ b. remove_newlines (b ++ [])) empty)
Phase-end p thought said empty (in_content mode skip missing t c) = (t, c ∙ ap (λ b. b ++ []) empty)

-- The stream emits all that is due.
abbrev pub Streams : Option (List ReasoningDelta) → List ℕ → List ℕ → Type 0
Streams result thought said =
    (deltas : List ReasoningDelta) × (result ≡ some deltas)
    × (text_of reasoning deltas ≡ thought)
    × (text_of content deltas ≡ said)

stream-Phase :
    (chunks : List (List ℕ)) (p : ReasoningStreamParser) (thought said : List ℕ)
    → reasoning_format_extracts_content p.format ≡ true
    → p.finished ≡ false
    → Phase (joined chunks) p thought said
    → Streams (stream chunks p) thought said
stream-Phase [] p thought said extracts going phase =
    let ended : ReasoningStreamParser = record p { finished = true } in
    let drained =
      drain-Drained true [] ended thought said extracts (λ e. refl)
        (Phase-finish p thought said phase) in
    let due = drained.due in
    let (no_thought, no_said) =
      Phase-end drained.left due.thought due.said (drained.at_end refl) due.phase in
    (
      drained.deltas,
      stream_finish p drained.left drained.deltas going drained.returns,
      sym (append-nil _)
          ∙ ap (λ t. text_of reasoning drained.deltas ++ t) (sym no_thought)
          ∙ due.thoughts_are,
      sym (append-nil _)
          ∙ ap (λ t. text_of content drained.deltas ++ t) (sym no_said)
          ∙ due.saids_are,
    )
stream-Phase (chunk ∷ chunks) p thought said extracts going phase =
    let pushed : ReasoningStreamParser = record p { buffer = p.buffer ++ chunk } in
    let drained =
      drain-Drained false (joined chunks) pushed thought said extracts (λ e. absurd (cc))
        (Phase-push chunk (joined chunks) p thought said phase) in
    let due = drained.due in
    let (rest, streamed, thoughts_are, saids_are) =
      stream-Phase chunks drained.left due.thought due.said
        (ap reasoning_format_extracts_content due.same_format ∙ extracts)
        (due.same_finished ∙ going) due.phase in
    (
      drained.deltas ++ rest,
      stream_push chunk chunks p drained.left drained.deltas rest going drained.returns streamed,
      text_of-append reasoning drained.deltas rest
          ∙ ap (λ t. text_of reasoning drained.deltas ++ t) thoughts_are
          ∙ due.thoughts_are,
      text_of-append content drained.deltas rest
          ∙ ap (λ t. text_of content drained.deltas ++ t) saids_are
          ∙ due.saids_are,
    )

-- With thinking on, in a format that extracts reasoning: however a text is cut into chunks, the deltas
-- that the parser emits for them and at the end are the reasoning and the content that
-- `split_reasoning_content` finds in the whole text. The conditions: reasoning that holds no `</think>`
-- and does not begin with a newline stands before a `</think>`, and the text holds no `<think>`.
pub stream-split_reasoning_content :
    (chunks : List (List ℕ)) (format : ReasoningFormat) (text after : List ℕ)
    → reasoning_format_extracts_content format ≡ true
    → joined chunks ≡ text ++ (think_end ++ after)
    → find text think_end ≡ none
    → find (joined chunks) think_start ≡ none
    → remove_newlines text ≡ text
    → Streams
        (stream chunks (stream_parser true format))
        (split_reasoning_content (joined chunks) true format).reasoning_content
        (split_reasoning_content (joined chunks) true format).content
unfolding stream_parser
stream-split_reasoning_content chunks format text after extracts whole no_end no_start solid =
    let unopened : starts_with (text ++ (think_end ++ after)) think_start ≡ false =
      ap (λ t. starts_with t think_start) (sym whole)
      ∙ not_here (joined chunks) think_start no_start in
    let split =
      ap (λ t. split_reasoning_content t true format) whole
      ∙ split_thinking format extracts [] text after no_end unopened in
    let initial : Phase (joined chunks) (stream_parser true format) (trim_trailing_newlines text)
        (remove_newlines after) =
      in_reasoning text after (rw extracts) whole no_end no_start (inr solid) refl refl in
    rw split (stream-Phase chunks (stream_parser true format) _ _ extracts refl initial)

-- With thinking off, a text without `<think>` is emitted as it stands, as content only, however it is cut
-- into chunks. The condition: the format extracts reasoning.
pub stream-content :
    (chunks : List (List ℕ)) (format : ReasoningFormat)
    → reasoning_format_extracts_content format ≡ true
    → find (joined chunks) think_start ≡ none
    → Streams (stream chunks (stream_parser false format)) [] (joined chunks)
unfolding stream_parser
stream-content chunks format extracts missing =
    stream-Phase chunks (stream_parser false format) [] (joined chunks) extracts refl
      (in_content refl refl missing refl refl)
