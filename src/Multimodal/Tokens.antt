-- ===== src/Multimodal/Tokens.antt =====
-- `tokenize_qwen35_multimodal_prompt` on a planned prompt, and on messages.
use kraken_infer.Base.{
  ℕ, suc, ◌+◌, max, Bool, true, false, List, [], ◌∷◌, ◌++◌, ℤ, length, wrap, Outcome, ok, ◌>>=◌,
}
use kraken_infer.Tokenizer.Vocabulary.{GgufTokenizer}
use kraken_infer.Tokenizer.Codec.{gguf_encode_text}
use kraken_infer.Tokenizer.Chat.{ChatMessage}
use kraken_infer.Multimodal.Resize.{Scaling, Dimensions}
use kraken_infer.Multimodal.Embedding.{Metadata, ImagePlan}
use kraken_infer.Multimodal.Prompt.{
  ChunkKind, text_chunk, image_chunk, PromptChunk, PromptPlan, plan_multimodal_prompt,
}

pub record TokenChunk : Type 0 where
  pub kind : ChunkKind
  pub ids : List ℤ
  pub message_index : ℕ
  pub part_index : ℕ
  pub image_index : ℕ
  pub image_fingerprint : ℕ
  pub image_plan : ImagePlan
  pub token_count : ℕ
  pub position_advance : ℕ

pub record TokenPlan : Type 0 where
  pub chunks : List TokenChunk
  pub text_chunks : ℕ
  pub image_chunks : ℕ
  pub text_tokens : ℕ
  pub image_tokens : ℕ
  pub total_tokens : ℕ
  pub total_position_advance : ℕ

abbrev pub empty_tokens : TokenPlan
empty_tokens = record {
  chunks = [];
  text_chunks = 0;
  image_chunks = 0;
  text_tokens = 0;
  image_tokens = 0;
  total_tokens = 0;
  total_position_advance = 0;
}

-- The chunk with the counts that its kind gives it.
abbrev pub token_chunk : PromptChunk → List ℤ → ℕ → ℕ → TokenChunk
token_chunk chunk ids token_count position_advance = record {
  kind = chunk.kind;
  ids = ids;
  message_index = chunk.message_index;
  part_index = chunk.part_index;
  image_index = chunk.image_index;
  image_fingerprint = chunk.image_fingerprint;
  image_plan = chunk.image_plan;
  token_count = token_count;
  position_advance = position_advance;
}

-- The last statements of the loop's body.
abbrev pub push_token_chunk : TokenChunk → TokenPlan → TokenPlan
push_token_chunk chunk plan = record plan {
  total_tokens = wrap (plan.total_tokens + chunk.token_count);
  total_position_advance = wrap (plan.total_position_advance + chunk.position_advance);
  chunks = plan.chunks ++ chunk ∷ [];
}

abbrev pub add_text_tokens : PromptChunk → List ℤ → TokenPlan → TokenPlan
add_text_tokens chunk ids plan =
    push_token_chunk (token_chunk chunk ids (length ids) (length ids)) (record plan {
      text_tokens = wrap (plan.text_tokens + length ids);
      text_chunks = suc plan.text_chunks;
    })

abbrev pub add_image_tokens : PromptChunk → TokenPlan → TokenPlan
add_image_tokens chunk plan =
    let image_plan = chunk.image_plan in
    push_token_chunk
      (token_chunk chunk [] image_plan.image_tokens
        (max image_plan.merge_grid_x image_plan.merge_grid_y))
      (record plan {
        image_tokens = wrap (plan.image_tokens + image_plan.image_tokens);
        image_chunks = suc plan.image_chunks;
      })

-- The body of the loop.
abbrev pub tokenize_chunk : ChunkKind → GgufTokenizer → PromptChunk → TokenPlan → Outcome TokenPlan
tokenize_chunk text_chunk tokenizer chunk plan =
    gguf_encode_text tokenizer chunk.chunk_text false true >>= λ ids.
    ok (add_text_tokens chunk ids plan)
tokenize_chunk image_chunk tokenizer chunk plan = ok (add_image_tokens chunk plan)

unfoldable pub tokenize_chunks : GgufTokenizer → List PromptChunk → TokenPlan → Outcome TokenPlan
tokenize_chunks tokenizer [] plan = ok plan
tokenize_chunks tokenizer (chunk ∷ chunks) plan =
    tokenize_chunk chunk.kind tokenizer chunk plan >>= tokenize_chunks tokenizer chunks

unfoldable pub tokenize_prompt_plan : GgufTokenizer → PromptPlan → Outcome TokenPlan
tokenize_prompt_plan tokenizer prompt_plan =
    tokenize_chunks tokenizer prompt_plan.chunks empty_tokens

unfoldable pub tokenize_multimodal_prompt :
    Scaling
    → (List ℕ → List ℕ → Outcome Dimensions)
    → GgufTokenizer
    → Metadata
    → List ChatMessage
    → Bool
    → Bool
    → Outcome TokenPlan
tokenize_multimodal_prompt scaling decode_image tokenizer metadata messages add_generation
      enable_thinking =
    plan_multimodal_prompt scaling decode_image metadata messages add_generation enable_thinking
    >>= tokenize_prompt_plan tokenizer
