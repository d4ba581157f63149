-- ===== src/Tests/Reasoning.antt =====
-- Reasoning and content that come whole and in chunks.
use kraken_infer.Base.{ℕ, ◌≡◌, refl, true, false, List, [], ◌∷◌, ◌++◌, some, take, drop}
use kraken_infer.Reasoning.Sections.{split_reasoning_content_joined}
use kraken_infer.Reasoning.Drain.{drain_total}
use kraken_infer.Reasoning.Chunks.{
  joined, stream, Streams, stream-split_reasoning_content, stream-content,
}
use kraken_infer.Reasoning.Tags.{think_start, think_end, trim_trailing_newlines, remove_newlines}
use kraken_infer.Reasoning.Split.{auto_, deepseek, split_reasoning_content}
use kraken_infer.Reasoning.Stream.{
  ReasoningStreamParser, ReasoningDelta, reasoning, content, stream_parser, push, finish, drain,
}

program : Unit {0}
unfolding split_reasoning_content stream_parser push finish
program = tt

split_text :
    split_reasoning_content
      (think_start ++ 10 ∷ 65 ∷ 10 ∷ [] ++ think_end ++ 10 ∷ 66 ∷ [])
      true
      auto_
    ≡ record { reasoning_content = 65 ∷ []; content = 66 ∷ [] }
unfolding program
split_text = refl

push_text :
    push
      (think_start ++ 10 ∷ 65 ∷ 10 ∷ [] ++ think_end ++ 10 ∷ 66 ∷ 60 ∷ [])
      (stream_parser true deepseek)
    ≡ some (
      record {
        format = deepseek;
        mode = content;
        skip_reasoning_prefix_newlines = false;
        skip_content_prefix_newlines = false;
        finished = false;
        buffer = 60 ∷ [];
      },
      record { kind = reasoning; text = 65 ∷ [] } ∷ record { kind = content; text = 66 ∷ [] } ∷ [],
    )
unfolding program
push_text = refl

abbrev thoughts : List ℕ
thoughts = 65 ∷ 10 ∷ 66 ∷ 10 ∷ []

-- "A\nB\n</think>\nC", cut inside the newlines and inside the tag.
abbrev chunks : List (List ℕ)
chunks =
    (65 ∷ 10 ∷ 66 ∷ [])
    ∷ (10 ∷ 60 ∷ 47 ∷ [])
    ∷ (116 ∷ 104 ∷ 105 ∷ 110 ∷ 107 ∷ 62 ∷ 10 ∷ [])
    ∷ (67 ∷ [])
    ∷ []

split_reasoning_content_joined_example :
    (split_reasoning_content (thoughts ++ (think_end ++ 67 ∷ [])) true auto_ ≡ record {
      reasoning_content = trim_trailing_newlines thoughts;
      content = remove_newlines (67 ∷ []);
    })
    × (split_reasoning_content (think_start ++ (thoughts ++ (think_end ++ 67 ∷ []))) true auto_
        ≡ record {
          reasoning_content = trim_trailing_newlines (remove_newlines thoughts);
          content = remove_newlines (67 ∷ []);
        })
    × (split_reasoning_content
          ((68 ∷ []) ++ (think_start ++ (thoughts ++ (think_end ++ 67 ∷ []))))
          false
          auto_
        ≡ record {
          reasoning_content = trim_trailing_newlines (remove_newlines thoughts);
          content = (68 ∷ []) ++ remove_newlines (67 ∷ []);
        })
unfolding program
split_reasoning_content_joined_example =
    split_reasoning_content_joined auto_ refl (68 ∷ []) thoughts (67 ∷ []) refl refl refl

stream-split_reasoning_content_example :
    Streams
      (stream chunks (stream_parser true auto_))
      (split_reasoning_content (joined chunks) true auto_).reasoning_content
      (split_reasoning_content (joined chunks) true auto_).content
unfolding program
stream-split_reasoning_content_example =
    stream-split_reasoning_content chunks auto_ thoughts (10 ∷ 67 ∷ []) refl refl refl refl refl

stream-content_example :
    Streams
      (stream ((60 ∷ 116 ∷ []) ∷ (65 ∷ []) ∷ []) (stream_parser false deepseek))
      []
      (60 ∷ 116 ∷ 65 ∷ [])
unfolding program
stream-content_example = stream-content ((60 ∷ 116 ∷ []) ∷ (65 ∷ []) ∷ []) deepseek refl refl

-- A `<think>` that is cut between two chunks is emitted as reasoning; the split of the text removes it.
cut_tag :
    Streams
      (stream (take 3 think_start ∷ drop 3 think_start ∷ []) (stream_parser true auto_))
      think_start
      []
    × ((split_reasoning_content think_start true auto_).reasoning_content ≡ [])
unfolding program stream
cut_tag = ((_, refl, refl, refl), refl)

drain_total_example :
    (p' : ReasoningStreamParser) × (deltas : List ReasoningDelta) × (drain true
        (stream_parser true auto_)
      ≡ some (p', deltas))
    × (true ≡ true → p'.buffer ≡ [])
drain_total_example = drain_total true (stream_parser true auto_)
