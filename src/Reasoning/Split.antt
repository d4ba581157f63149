-- ===== src/Reasoning/Split.antt =====
-- The format of reasoning, and the split of a complete text into reasoning and content.
use kraken_infer.Base.{
  ℕ, ◌+◌, Bool, true, false, ◌||◌, List, [], ◌∷◌, ◌++◌, none, some, if◌then◌else◌, length, take,
  drop, starts_with, string_eq, find, Outcome, ok, err, invalid_argument,
}
use kraken_infer.Reasoning.Tags.{think_start, think_end, trim_trailing_newlines, remove_newlines}

-- `none`, `auto_` and `deepseek`.
pub data ReasoningFormat : Type 0 where
  plain auto_ deepseek : ReasoningFormat

pub record ReasoningMessage : Type 0 where
  pub reasoning_content : List ℕ
  pub content : List ℕ

-- The names "none", "auto" and "deepseek".
abbrev pub format_name : ReasoningFormat → List ℕ
format_name plain = b'n' ∷ b'o' ∷ b'n' ∷ b'e' ∷ []
format_name auto_ = b'a' ∷ b'u' ∷ b't' ∷ b'o' ∷ []
format_name deepseek = b'd' ∷ b'e' ∷ b'e' ∷ b'p' ∷ b's' ∷ b'e' ∷ b'e' ∷ b'k' ∷ []

unfoldable pub parse_reasoning_format : List ℕ → Outcome ReasoningFormat
unfolding string_eq
parse_reasoning_format value =
    if string_eq value (format_name plain)
    then ok plain
    else if string_eq value (format_name auto_)
    then ok auto_
    else if string_eq value (format_name deepseek)
    then ok deepseek
    else err invalid_argument

unfoldable pub reasoning_format_name : ReasoningFormat → List ℕ
reasoning_format_name format = format_name format

abbrev is_auto : ReasoningFormat → Bool
is_auto auto_ = true
is_auto _ = false

abbrev is_deepseek : ReasoningFormat → Bool
is_deepseek deepseek = true
is_deepseek _ = false

unfoldable pub reasoning_format_extracts_content : ReasoningFormat → Bool
reasoning_format_extracts_content format = is_auto format || is_deepseek format

-- The ends of both branches: the text from the reasoning on, and the content before it.
unfoldable pub split_at_end : List ℕ → List ℕ → ReasoningMessage
unfolding find trim_trailing_newlines remove_newlines
split_at_end before text = elim (find text think_end) [
  | none ↦ record { reasoning_content = trim_trailing_newlines text; content = before }
  | some end ↦ record {
    reasoning_content = trim_trailing_newlines (take end text);
    content = before ++ remove_newlines (drop (end + length think_end) text);
  }
]

unfoldable pub split_reasoning_content : List ℕ → Bool → ReasoningFormat → ReasoningMessage
unfolding reasoning_format_extracts_content split_at_end starts_with find remove_newlines
split_reasoning_content text enable_thinking format =
    if reasoning_format_extracts_content format
    then if enable_thinking
      then split_at_end [] (
          if starts_with text think_start
          then remove_newlines (drop (length think_start) text)
          else text)
      else elim (find text think_start) [
        | none ↦ record { reasoning_content = []; content = text }
        | some start ↦
            split_at_end (take start text)
              (remove_newlines (drop (start + length think_start) text))
      ]
    else record { reasoning_content = []; content = text }
