-- ===== src/Multimodal/Prompt.antt =====
-- The plan of a prompt with images: `plan_qwen35_multimodal_prompt`. The image decoder of the
-- platform is a parameter: the size of the pixels it makes of a type and the bytes.
use kraken_infer.Base.{
  wrap, ℕ, suc, ◌+◌, max, Bool, true, false, not, ◌&&◌, List, [], ◌∷◌, ◌++◌, length, ◌==◌, is_empty,
  if◌then◌else◌, Outcome, ok, err, invalid_argument, guard, ◌>>=◌, ◌>>◌,
}
use kraken_infer.Tokenizer.Vocabulary.{bytes_of}
use kraken_infer.Tokenizer.Chat.{
  ChatContentPartKind, ChatContentPartKind.text, ChatContentPartKind.image_url, ChatContentPart,
  ChatMessage, is_role, im_start,
}
use kraken_infer.Multimodal.Resize.{Scaling, Dimensions}
use kraken_infer.Multimodal.Embedding.{
  Metadata, ImagePlan, is_qwen3vl_merger, plan_image_embeddings,
}
use kraken_infer.Multimodal.Headers.{infer_image_dimensions}

pub data ChunkKind : Type 0 where
  text_chunk image_chunk : ChunkKind

abbrev pub no_image_plan : ImagePlan
no_image_plan = record {
  original_width = 0;
  original_height = 0;
  resized_width = 0;
  resized_height = 0;
  patch_grid_x = 0;
  patch_grid_y = 0;
  merge_grid_x = 0;
  merge_grid_y = 0;
  patch_size = 0;
  spatial_merge_size = 0;
  image_tokens = 0;
  min_image_tokens = 0;
  max_image_tokens = 0;
}

pub record PromptChunk : Type 0 where
  pub kind : ChunkKind
  pub chunk_text : List ℕ
  pub message_index : ℕ
  pub part_index : ℕ
  pub image_index : ℕ
  pub image_fingerprint : ℕ
  pub image_plan : ImagePlan

-- The plan, and the number of images so far, which the source keeps beside it.
pub record PromptPlan : Type 0 where
  pub chunks : List PromptChunk
  pub image_index : ℕ
  pub text_chunks : ℕ
  pub image_chunks : ℕ
  pub image_tokens : ℕ
  pub image_position_advance : ℕ

abbrev pub empty_plan : PromptPlan
empty_plan = record {
  chunks = [];
  image_index = 0;
  text_chunks = 0;
  image_chunks = 0;
  image_tokens = 0;
  image_position_advance = 0;
}

-- What stands for a text behind the last chunk: more text of it, or a chunk of its own.
abbrev pub join_text : ChunkKind → PromptChunk → PromptChunk → List PromptChunk
join_text text_chunk last chunk =
    record last { chunk_text = last.chunk_text ++ chunk.chunk_text } ∷ []
join_text image_chunk last chunk = last ∷ chunk ∷ []

unfoldable pub append_text_chunk : List PromptChunk → PromptChunk → List PromptChunk
append_text_chunk [] chunk = chunk ∷ []
append_text_chunk (last ∷ []) chunk = join_text last.kind last chunk
append_text_chunk (first ∷ second ∷ chunks) chunk =
    first ∷ append_text_chunk (second ∷ chunks) chunk

abbrev pub new_text_chunk : List ℕ → ℕ → ℕ → PromptChunk
new_text_chunk added message_index part_index = record {
  kind = text_chunk;
  chunk_text = added;
  message_index = message_index;
  part_index = part_index;
  image_index = 0;
  image_fingerprint = 0;
  image_plan = no_image_plan;
}

unfoldable pub add_multimodal_text_chunk : PromptPlan → List ℕ → ℕ → ℕ → PromptPlan
unfolding append_text_chunk
add_multimodal_text_chunk plan added message_index part_index =
    if is_empty added then plan else record plan {
      chunks = append_text_chunk plan.chunks (new_text_chunk added message_index part_index);
    }

unfoldable pub add_image_chunk : PromptPlan → ℕ → ℕ → ℕ → ImagePlan → PromptPlan
add_image_chunk plan fingerprint message_index part_index image_plan = record plan {
  chunks =
      plan.chunks
      ++ (record {
        kind = image_chunk;
        chunk_text = [];
        message_index = message_index;
        part_index = part_index;
        image_index = plan.image_index;
        image_fingerprint = fingerprint;
        image_plan = image_plan;
      })
        ∷ [];
  image_index = suc plan.image_index;
  image_tokens = wrap (plan.image_tokens + image_plan.image_tokens);
  image_position_advance =
      wrap (plan.image_position_advance + max image_plan.merge_grid_x image_plan.merge_grid_y);
}

abbrev pub or_decoded : Outcome Dimensions → Outcome Dimensions → Outcome Dimensions
or_decoded (ok dimensions) decoded = ok dimensions
or_decoded (err why) decoded = decoded

abbrev pub count_chunk : ChunkKind → PromptPlan → PromptPlan
count_chunk text_chunk plan = record plan { text_chunks = suc plan.text_chunks }
count_chunk image_chunk plan = record plan { image_chunks = suc plan.image_chunks }

abbrev pub count_chunks : List PromptChunk → PromptPlan → PromptPlan
count_chunks [] plan = plan
count_chunks (chunk ∷ chunks) plan = count_chunks chunks (count_chunk chunk.kind plan)

abbrev pub vision_start : List ℕ
vision_start = bytes_of "<|vision_start|>"

abbrev pub vision_end : List ℕ
vision_end = bytes_of "<|vision_end|>"

abbrev pub add_generation_prompt : Bool → ℕ → PromptPlan → PromptPlan
add_generation_prompt enable_thinking message_index plan =
    add_multimodal_text_chunk
      (add_multimodal_text_chunk plan (bytes_of "<|im_start|>assistant\n") message_index 0)
      (if enable_thinking then bytes_of "<think>\n" else bytes_of "<think>\n\n</think>\n\n")
      message_index 0

-- `if (add_generation_prompt)`.
abbrev pub prompted : Bool → Bool → List ChatMessage → PromptPlan → PromptPlan
prompted false enable_thinking messages plan = plan
prompted true enable_thinking messages plan =
    add_generation_prompt enable_thinking (length messages) plan

module _ (scaling : Scaling) (decode_image : List ℕ → List ℕ → Outcome Dimensions) where
  unfoldable pub image_part_dimensions : ChatContentPart → Outcome Dimensions
  unfolding infer_image_dimensions
  image_part_dimensions part =
      if not (part.image_width == 0) && not (part.image_height == 0)
      then ok (record { width = part.image_width; height = part.image_height })
      else if not (is_empty part.image_mime_type) && not (is_empty part.image_bytes)
      then or_decoded (infer_image_dimensions part.image_mime_type part.image_bytes)
          (decode_image part.image_mime_type part.image_bytes)
      else err invalid_argument

  unfoldable pub plan_image_part :
      Metadata → ℕ → ℕ → ChatContentPart → PromptPlan → Outcome PromptPlan
  plan_image_part metadata message_index part_index part plan = do
    let opened = add_multimodal_text_chunk plan vision_start message_index part_index
    dimensions ← image_part_dimensions part
    image_plan ← plan_image_embeddings scaling metadata dimensions.width dimensions.height
    let shown = add_image_chunk opened part.image_fingerprint message_index part_index image_plan
    ok (add_multimodal_text_chunk shown vision_end message_index part_index)

  abbrev pub plan_part :
      ChatContentPartKind → Metadata → ℕ → ℕ → ChatContentPart → PromptPlan → Outcome PromptPlan
  plan_part text metadata message_index part_index part plan =
      ok (add_multimodal_text_chunk plan part.part_text message_index part_index)
  plan_part image_url metadata message_index part_index part plan =
      plan_image_part metadata message_index part_index part plan

  unfoldable pub plan_parts :
      Metadata → ℕ → ℕ → List ChatContentPart → PromptPlan → Outcome PromptPlan
  plan_parts metadata message_index part_index [] plan = ok plan
  plan_parts metadata message_index part_index (part ∷ parts) plan =
      plan_part part.kind metadata message_index part_index part plan
      >>= plan_parts metadata message_index (suc part_index) parts

  -- The content of a message without parts, or else the parts.
  unfoldable pub plan_content :
      Metadata → ℕ → List ℕ → List ChatContentPart → PromptPlan → Outcome PromptPlan
  plan_content metadata message_index content [] plan =
      ok (add_multimodal_text_chunk plan content message_index 0)
  plan_content metadata message_index content (part ∷ parts) plan =
      plan_parts metadata message_index 0 (part ∷ parts) plan

  unfoldable pub plan_messages : Metadata → ℕ → List ChatMessage → PromptPlan → Outcome PromptPlan
  plan_messages metadata message_index [] plan = ok plan
  plan_messages metadata message_index (message ∷ messages) plan = do
    guard (is_role message.role) invalid_argument
    let prefix = im_start ++ (message.role ++ b'\n' ∷ [])
    filled ←
        plan_content metadata message_index message.content message.content_parts
          (add_multimodal_text_chunk plan prefix message_index 0)
    plan_messages metadata (suc message_index) messages
        (add_multimodal_text_chunk filled (bytes_of "<|im_end|>\n") message_index 0)

  unfoldable pub plan_multimodal_prompt :
      Metadata → List ChatMessage → Bool → Bool → Outcome PromptPlan
  plan_multimodal_prompt metadata messages add_generation enable_thinking = do
    guard (is_qwen3vl_merger metadata) invalid_argument
    plan ← plan_messages metadata 0 messages empty_plan
    let full = prompted add_generation enable_thinking messages plan
    ok (count_chunks full.chunks full)
