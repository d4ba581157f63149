-- ===== src/Reasoning/Phases.antt =====
-- Where the stream parser stands in a text `reasoning </think> content`, and what is left to emit.
use kraken_infer.Base.{
  ℕ, ◌≡◌, refl, sym, ap, ◌∙◌, ◌⊎◌, Bool, true, false, List, [], ◌++◌, append_assoc, append-nil,
  none, take, drop, take-append-drop, find, find_suffix,
}
use mathlib.Core.Path.{subst}
use kraken_infer.Reasoning.Tags.{think_start, think_end, trim_trailing_newlines, remove_newlines}
use kraken_infer.Reasoning.Split.{ReasoningFormat}
use kraken_infer.Reasoning.Stream.{
  ReasoningDelta, ReasoningStreamParser, reasoning, content, append_delta,
}
use kraken_infer.Reasoning.Deltas.{text_of, text_of-append_delta}

-- The parser's place, where `later` are the bytes that did not come yet, and what it has still to emit:
-- `thought` of reasoning and `said` of content.
pub data Phase (later : List ℕ) (p : ReasoningStreamParser) (thought said : List ℕ) : Type 0 where
  in_reasoning :
      (text after : List ℕ)
      → p.mode ≡ reasoning
      → p.buffer ++ later ≡ text ++ (think_end ++ after)
      → find text think_end ≡ none
      → find (p.buffer ++ later) think_start ≡ none
      → (p.skip_reasoning_prefix_newlines ≡ false) ⊎ (remove_newlines text ≡ text)
      → thought ≡ trim_trailing_newlines text
      → said ≡ remove_newlines after
      → Phase later p thought said
  after_tag :
      p.mode ≡ content
      → p.skip_content_prefix_newlines ≡ true
      → find (p.buffer ++ later) think_start ≡ none
      → thought ≡ []
      → said ≡ remove_newlines (p.buffer ++ later)
      → Phase later p thought said
  in_content :
      p.mode ≡ content
      → p.skip_content_prefix_newlines ≡ false
      → find (p.buffer ++ later) think_start ≡ none
      → thought ≡ []
      → said ≡ p.buffer ++ later
      → Phase later p thought said

-- What was emitted and what is left make up the whole.
pub record Emits (later : List ℕ) (format : ReasoningFormat) (finished : Bool)
    (thoughts saids : List ℕ) (p : ReasoningStreamParser) (deltas : List ReasoningDelta)
    : Type 0 where
  pub same_format : p.format ≡ format
  pub same_finished : p.finished ≡ finished
  pub thought : List ℕ
  pub said : List ℕ
  pub phase : Phase later p thought said
  pub thoughts_are : text_of reasoning deltas ++ thought ≡ thoughts
  pub saids_are : text_of content deltas ++ said ≡ saids

-- The text splits at the bytes that are emitted.
pub split_buffer :
    (n : ℕ) (buffer later : List ℕ) → take n buffer ++ (drop n buffer ++ later) ≡ buffer ++ later
split_buffer n buffer later =
    sym (append_assoc (take n buffer) (drop n buffer) later)
    ∙ ap (λ t. t ++ later) (take-append-drop n buffer)

module _ (later : List ℕ) (format : ReasoningFormat) (finished : Bool) (thoughts saids : List ℕ)
    (p : ReasoningStreamParser) (deltas : List ReasoningDelta) (same_format : p.format ≡ format)
    (same_finished : p.finished ≡ finished) where
  -- Content that is emitted is taken off the buffer.
  pub emitted_content :
      (n : ℕ)
      → p.mode ≡ content
      → p.skip_content_prefix_newlines ≡ false
      → find (p.buffer ++ later) think_start ≡ none
      → text_of reasoning deltas ≡ thoughts
      → text_of content deltas ++ (p.buffer ++ later) ≡ saids
      → Emits later format finished thoughts saids
          (record p { buffer = drop n p.buffer })
          (append_delta deltas content (take n p.buffer))
  emitted_content n mode skip missing thoughts_are saids_are =
      let whole = split_buffer n p.buffer later in
      let rest_missing : find (drop n p.buffer ++ later) think_start ≡ none =
        find_suffix (take n p.buffer) _ think_start
          (subst (λ t. find t think_start ≡ none) (sym whole) missing) in
      record {
        same_format = same_format;
        same_finished = same_finished;
        thought = [];
        said = drop n p.buffer ++ later;
        phase = in_content mode skip rest_missing refl refl;
        thoughts_are =
            ap (λ t. t ++ []) (text_of-append_delta reasoning content deltas (take n p.buffer))
            ∙ append-nil (text_of reasoning deltas)
            ∙ thoughts_are;
        saids_are =
            ap (λ t. t ++ (drop n p.buffer ++ later))
              (text_of-append_delta content content deltas (take n p.buffer))
            ∙ append_assoc (text_of content deltas) (take n p.buffer) (drop n p.buffer ++ later)
            ∙ ap (λ t. text_of content deltas ++ t) whole
            ∙ saids_are;
      }
