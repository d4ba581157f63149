-- ===== src/Reasoning/Stream.antt =====
-- `ReasoningStreamParser`: the split of a text that comes in chunks.
use kraken_infer.Base.{
  ℕ, zero, suc, ◌+◌, ◌-◌, Bool, true, false, ◌&&◌, List, [], ◌∷◌, ◌++◌, Option, none, some, ◌==◌,
  if◌then◌else◌, length, take, drop, is_empty, starts_with, find,
}
use kraken_infer.Reasoning.Tags.{
  think_start, think_end, trim_trailing_newlines, leading_newline_count, trailing_newline_count,
  tag_prefix_suffix_size,
}
use kraken_infer.Reasoning.Split.{ReasoningFormat, reasoning_format_extracts_content}

-- `ReasoningDelta::Kind`, and the parser's `Mode`, which has the same two values.
pub data Kind : Type 0 where
  reasoning content : Kind

abbrev pub Mode : Type 0
Mode = Kind

pub record ReasoningDelta : Type 0 where
  pub kind : Kind
  pub text : List ℕ

pub record ReasoningStreamParser : Type 0 where
  pub format : ReasoningFormat
  pub mode : Mode
  pub skip_reasoning_prefix_newlines : Bool
  pub skip_content_prefix_newlines : Bool
  pub finished : Bool
  pub buffer : List ℕ

unfoldable pub stream_parser : Bool → ReasoningFormat → ReasoningStreamParser
unfolding reasoning_format_extracts_content
stream_parser enable_thinking format =
    let thinks = enable_thinking && reasoning_format_extracts_content format in
    record {
      format = format;
      mode = if thinks then reasoning else content;
      skip_reasoning_prefix_newlines = thinks;
      skip_content_prefix_newlines = false;
      finished = false;
      buffer = [];
    }

abbrev pub kind_eq : Kind → Kind → Bool
kind_eq reasoning reasoning = true
kind_eq content content = true
kind_eq _ _ = false

-- A text that is not empty joins the last delta of its kind, or is one more delta.
unfoldable pub append_text : List ReasoningDelta → Kind → List ℕ → List ReasoningDelta
append_text [] kind text = record { kind = kind; text = text } ∷ []
append_text (d ∷ []) kind text =
    if kind_eq d.kind kind
    then record d { text = d.text ++ text } ∷ []
    else d ∷ record { kind = kind; text = text } ∷ []
append_text (d ∷ e ∷ deltas) kind text = d ∷ append_text (e ∷ deltas) kind text

unfoldable pub append_delta : List ReasoningDelta → Kind → List ℕ → List ReasoningDelta
unfolding append_text
append_delta deltas kind text = if is_empty text then deltas else append_text deltas kind text

-- How a round of the loop of `drain` ends: by `continue`, or by `break`.
pub data Round : Type 0 where
  continue_with : ReasoningStreamParser → List ReasoningDelta → Round
  break_with : ReasoningStreamParser → List ReasoningDelta → Round

-- The end of a round in reasoning, where the buffer holds no tag.
unfoldable pub emit_reasoning : Bool → ReasoningStreamParser → List ReasoningDelta → Round
unfolding append_delta trim_trailing_newlines tag_prefix_suffix_size trailing_newline_count
emit_reasoning final p deltas =
    let size = length p.buffer in
    let tag_hold = tag_prefix_suffix_size p.buffer think_end in
    let newline_hold = trailing_newline_count (take (size - tag_hold) p.buffer) in
    let hold = if final then 0 else tag_hold + newline_hold in
    let emit_size = size - hold in
    let emitted = take emit_size p.buffer in
    if size == hold
    then break_with p deltas
    else continue_with (record p { buffer = drop emit_size p.buffer })
        (append_delta deltas reasoning (if final then trim_trailing_newlines emitted else emitted))

-- A round in reasoning, once newlines in front were skipped.
unfoldable pub reasoning_tags : Bool → ReasoningStreamParser → List ReasoningDelta → Round
unfolding append_delta trim_trailing_newlines starts_with find emit_reasoning
reasoning_tags final p deltas =
    if starts_with p.buffer think_start
    then continue_with
        (record p {
          buffer = drop (length think_start) p.buffer;
          skip_reasoning_prefix_newlines = true;
        })
        deltas
    else elim (find p.buffer think_end) [
      | none ↦ emit_reasoning final p deltas
      | some end ↦
          continue_with
            (record p {
              buffer = drop (end + length think_end) p.buffer;
              mode = content;
              skip_content_prefix_newlines = true;
            })
            (append_delta deltas reasoning (trim_trailing_newlines (take end p.buffer)))
    ]

unfoldable pub skip_newlines : List ℕ → List ℕ
unfolding leading_newline_count
skip_newlines buffer = drop (leading_newline_count buffer) buffer

unfoldable pub reasoning_round : Bool → ReasoningStreamParser → List ReasoningDelta → Round
unfolding skip_newlines reasoning_tags
reasoning_round final p deltas =
    let skipped : ReasoningStreamParser = record p {
      buffer = skip_newlines p.buffer;
      skip_reasoning_prefix_newlines = false;
    } in
    if p.skip_reasoning_prefix_newlines
    then if is_empty skipped.buffer
      then break_with skipped deltas
      else reasoning_tags final skipped deltas
    else reasoning_tags final p deltas

-- The end of a round in content, where the buffer holds no tag.
unfoldable pub emit_content : Bool → ReasoningStreamParser → List ReasoningDelta → Round
unfolding append_delta tag_prefix_suffix_size
emit_content final p deltas =
    let size = length p.buffer in
    let hold = if final then 0 else tag_prefix_suffix_size p.buffer think_start in
    let emit_size = size - hold in
    if size == hold
    then break_with p deltas
    else continue_with (record p { buffer = drop emit_size p.buffer })
        (append_delta deltas content (take emit_size p.buffer))

-- A round in content, once newlines in front were skipped.
unfoldable pub content_tags : Bool → ReasoningStreamParser → List ReasoningDelta → Round
unfolding append_delta find emit_content
content_tags final p deltas = elim (find p.buffer think_start) [
  | none ↦ emit_content final p deltas
  | some start ↦
      continue_with
        (record p {
          buffer = drop (start + length think_start) p.buffer;
          mode = reasoning;
          skip_reasoning_prefix_newlines = true;
        })
        (append_delta deltas content (take start p.buffer))
]

unfoldable pub content_round : Bool → ReasoningStreamParser → List ReasoningDelta → Round
unfolding skip_newlines content_tags
content_round final p deltas =
    let skipped : ReasoningStreamParser = record p { buffer = skip_newlines p.buffer } in
    if p.skip_content_prefix_newlines
    then if is_empty skipped.buffer
      then break_with skipped deltas
      else content_tags final (record skipped { skip_content_prefix_newlines = false }) deltas
    else content_tags final p deltas

-- A round of the loop, by the mode.
unfoldable pub round_in : Mode → Bool → ReasoningStreamParser → List ReasoningDelta → Round
unfolding reasoning_round content_round
round_in reasoning final p deltas = reasoning_round final p deltas
round_in content final p deltas = content_round final p deltas

unfoldable pub drain_round : Bool → ReasoningStreamParser → List ReasoningDelta → Round
unfolding round_in
drain_round final p deltas = round_in p.mode final p deltas

-- The loop of `drain`; nothing where the fuel runs out.
unfoldable pub drain_loop :
    ℕ
    → Bool
    → ReasoningStreamParser
    → List ReasoningDelta
    → Option (ReasoningStreamParser × List ReasoningDelta)
unfolding drain_round
drain_loop zero final p deltas = none
drain_loop (suc fuel) final p deltas =
    if is_empty p.buffer then some (p, deltas) else elim (drain_round final p deltas) [
      | continue_with p' deltas' ↦ drain_loop fuel final p' deltas'
      | break_with p' deltas' ↦ some (p', deltas')
    ]

-- A round that continues leaves less in the buffer.
unfoldable pub drain :
    Bool → ReasoningStreamParser → Option (ReasoningStreamParser × List ReasoningDelta)
unfolding drain_loop append_delta reasoning_format_extracts_content
drain final p =
    if reasoning_format_extracts_content p.format
    then drain_loop (suc (length p.buffer)) final p []
    else some (record p { buffer = [] }, append_delta [] content p.buffer)

unfoldable pub push :
    List ℕ → ReasoningStreamParser → Option (ReasoningStreamParser × List ReasoningDelta)
unfolding drain
push chunk p =
    if p.finished then some (p, []) else drain false (record p { buffer = p.buffer ++ chunk })

unfoldable pub finish : ReasoningStreamParser → Option (ReasoningStreamParser × List ReasoningDelta)
unfolding drain
finish p = if p.finished then some (p, []) else drain true (record p { finished = true })
