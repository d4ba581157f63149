-- ===== src/Reasoning/Sections.antt =====
-- The split of a complete text finds the sections that were joined by tags.
use kraken_infer.Base.{
  Bool-cases, ℕ, ◌≡◌, ◌≢◌, refl, ap, ◌∙◌, inl, inr, true, false, List, [], ◌∷◌, ◌++◌, none, drop,
  All, starts_with, starts_with-append, find, find-append, find_suffix, take-length-append,
  drop-add, arith,
}
use kraken_infer.Reasoning.Tags.{
  think_start, think_end, is_newline, trim_trailing_newlines, remove_newlines,
}
use kraken_infer.Reasoning.Split.{
  ReasoningFormat, reasoning_format_extracts_content, split_at_end, split_reasoning_content,
}

start_apart : All (λ c. c ≢ 60) (drop 1 think_start)
start_apart = omega arith

pub end_apart : All (λ c. c ≢ 60) (drop 1 think_end)
end_apart = omega arith

split_at_end_lem :
    (before text after : List ℕ)
    → find text think_end ≡ none
    → split_at_end before (text ++ (think_end ++ after)) ≡ record {
      reasoning_content = trim_trailing_newlines text;
      content = before ++ remove_newlines after;
    }
unfolding split_at_end
split_at_end_lem before text after missing = rw (
  find-append 60 (drop 1 think_end) text after end_apart missing,
  take-length-append text (think_end ++ after),
  split_at_end,
  drop-add text think_end after,
)

-- The newlines at the front of a text that a tag ends are the newlines at the front of the text.
pub remove_newlines-append :
    (text after : List ℕ)
    → remove_newlines (text ++ 60 ∷ after) ≡ remove_newlines text ++ 60 ∷ after
unfolding remove_newlines
remove_newlines-append [] after = refl
remove_newlines-append (c ∷ text) after = elim (Bool-cases (is_newline c)) [
  | inl newline ↦ rw newline (remove_newlines-append text after)
  | inr other ↦ rw other
]

-- What removing newlines leaves holds no tag that was not there.
pub find-remove_newlines :
    (text tag : List ℕ) → find text tag ≡ none → find (remove_newlines text) tag ≡ none
unfolding remove_newlines
find-remove_newlines [] tag missing = missing
find-remove_newlines (c ∷ text) tag missing = elim (Bool-cases (is_newline c)) [
  | inl newline ↦ rw newline (find-remove_newlines text tag (find_suffix (c ∷ []) text tag missing))
  | inr other ↦ rw other missing
]

split_opened :
    (before text after : List ℕ)
    → find text think_end ≡ none
    → split_at_end before (remove_newlines (text ++ (think_end ++ after))) ≡ record {
      reasoning_content = trim_trailing_newlines (remove_newlines text);
      content = before ++ remove_newlines after;
    }
split_opened before text after missing =
    ap (split_at_end before) (remove_newlines-append text (drop 1 think_end ++ after))
    ∙ split_at_end_lem before (remove_newlines text) after
        (find-remove_newlines text think_end missing)

module _ (format : ReasoningFormat) (extracts : reasoning_format_extracts_content format ≡ true)
    (before text after : List ℕ) (no_end : find text think_end ≡ none) where
  pub split_thinking :
      starts_with (text ++ (think_end ++ after)) think_start ≡ false
      → split_reasoning_content (text ++ (think_end ++ after)) true format ≡ record {
        reasoning_content = trim_trailing_newlines text;
        content = remove_newlines after;
      }
  unfolding split_reasoning_content
  split_thinking unopened = rw (extracts, unopened) (split_at_end_lem [] text after no_end)

  split_thinking_opened :
      split_reasoning_content (think_start ++ (text ++ (think_end ++ after))) true format ≡ record {
        reasoning_content = trim_trailing_newlines (remove_newlines text);
        content = remove_newlines after;
      }
  unfolding split_reasoning_content
  split_thinking_opened =
      rw (extracts, starts_with-append think_start (text ++ (think_end ++ after)))
        (split_opened [] text after no_end)

  split_tagged :
      find before think_start ≡ none
      → split_reasoning_content
          (before ++ (think_start ++ (text ++ (think_end ++ after))))
          false
          format
        ≡ record {
          reasoning_content = trim_trailing_newlines (remove_newlines text);
          content = before ++ remove_newlines after;
        }
  unfolding split_reasoning_content
  split_tagged no_start =
      let rest = text ++ (think_end ++ after) in
      rw
        (
          extracts,
          find-append 60 (drop 1 think_start) before rest start_apart no_start,
          split_reasoning_content,
          take-length-append before (think_start ++ rest),
          drop-add before think_start rest,
        )
        (split_opened before text after no_end)

  -- In a format that extracts reasoning, a text joined from sections by the tags is split at them. With
  -- thinking on, reasoning that `</think>` ends, whether `<think>` opened it or not, is found without the
  -- newlines at its end (and, if opened, at its front), and what follows is the content without newlines
  -- at its front. With thinking off, the content before `<think>` stands before that. The conditions:
  -- the reasoning holds no `</think>`, the text before holds no `<think>`, and unopened reasoning does not
  -- begin with `<think>`.
  pub split_reasoning_content_joined :
      find before think_start ≡ none
      → starts_with (text ++ (think_end ++ after)) think_start ≡ false
      → (split_reasoning_content (text ++ (think_end ++ after)) true format ≡ record {
        reasoning_content = trim_trailing_newlines text;
        content = remove_newlines after;
      })
        × (split_reasoning_content (think_start ++ (text ++ (think_end ++ after))) true format
            ≡ record {
              reasoning_content = trim_trailing_newlines (remove_newlines text);
              content = remove_newlines after;
            })
        × (split_reasoning_content
              (before ++ (think_start ++ (text ++ (think_end ++ after))))
              false
              format
            ≡ record {
              reasoning_content = trim_trailing_newlines (remove_newlines text);
              content = before ++ remove_newlines after;
            })
  split_reasoning_content_joined no_start unopened =
      (split_thinking unopened, split_thinking_opened, split_tagged no_start)
