-- ===== src/Tests/Multimodal.antt =====
-- Runs of the plans of images and prompts, and of the reading of sizes.
use kraken_infer.Base.{
  ℕ, zero, suc, ◌*◌, ◌^◌, ◌-◌, List, [], ◌∷◌, ◌≡◌, refl, pos, negsuc, true, false, Outcome, ok, err,
  invalid_argument, leb, if◌then◌else◌, string_eq, arith,
}
use kraken_infer.Tokenizer.Vocabulary.{GgufTokenizer, bytes_of, value_or, gguf_token_id}
use kraken_infer.Tokenizer.Codec.{qwen35_pre}
use kraken_infer.Tokenizer.Chat.{
  ChatContentPartKind, ChatContentPartKind.text, ChatContentPartKind.image_url, ChatContentPart,
  ChatMessage, im_start, im_end, is_role,
}
use kraken_infer.Multimodal.Resize.{
  Scaling, Dimensions, positive_u32_from_i64, checked_u64_mul, round_by_factor, floor_by_factor,
  ceil_by_factor, resized_side, smart_resize,
}
use kraken_infer.Multimodal.Embedding.{
  Metadata, ImagePlan, merger, is_qwen3vl_merger, merge_size, pixel_limit, plan_grid,
  plan_image_embeddings,
}
use kraken_infer.Multimodal.Headers.{is_jpeg_sof_marker, infer_jpeg_dimensions}
use kraken_infer.Multimodal.Jpeg.{
  Segment, encode_segments, encode_frame, infer_jpeg_dimensions-encode_frame,
}
use kraken_infer.Multimodal.Prompt.{
  PromptPlan, empty_plan, new_text_chunk, image_chunk, append_text_chunk, add_multimodal_text_chunk,
  add_image_chunk, image_part_dimensions, plan_image_part, plan_parts, plan_content, plan_messages,
  plan_multimodal_prompt,
}
use kraken_infer.Multimodal.Reads.{prompt_text, chunks_tokens}
use kraken_infer.Multimodal.Tokens.{TokenPlan, tokenize_prompt_plan}
use kraken_infer.Multimodal.Decodes.{Decodes, tokenize_prompt_plan-Decodes}
use kraken_infer.Tests.Tokenizer.{
  small_file, small, small_loaded, small_model, small_pre, has_symbols, has_merges,
  IsPlain-specials, sample,
}
use kraken_infer.Multimodal.ChatPrompt.{IsPrompt, plan_multimodal_prompt-IsPrompt}

-- The greatest number up to `n` whose square is at most `limit` parts of `square`.
abbrev root_below : ℕ → ℕ → ℕ → ℕ
root_below zero scale square = zero
root_below (suc n) scale square =
    let below = root_below n scale square in
    if leb (suc n * suc n * scale) square then suc n else below

-- The exact values of the floating point expressions, the ceiling taken one above.
abbrev exact : Scaling
exact = record {
  shrink =
      λ pixels limit side factor. root_below side (factor * factor * pixels) (side * side * limit);
  grow = λ pixels limit side factor.
      suc (root_below limit (factor * factor * pixels) (side * side * limit));
}

abbrev small_metadata : Metadata
small_metadata = record {
  projector_type = merger;
  vision_projector_type = [];
  spatial_merge_size = pos 2;
  patch_size = pos 16;
  image_min_pixels = 0;
  image_max_pixels = 0;
  projector_output_width = 4;
}

abbrev small_plan : ImagePlan
small_plan = record {
  original_width = 100;
  original_height = 130;
  resized_width = 96;
  resized_height = 128;
  patch_grid_x = 6;
  patch_grid_y = 8;
  merge_grid_x = 3;
  merge_grid_y = 4;
  patch_size = 16;
  spatial_merge_size = 2;
  image_tokens = 12;
  min_image_tokens = 8;
  max_image_tokens = 4096;
}

small_planned : plan_image_embeddings exact small_metadata 100 130 ≡ ok small_plan
unfolding plan_image_embeddings is_qwen3vl_merger string_eq positive_u32_from_i64 merge_size
    checked_u64_mul pixel_limit smart_resize resized_side round_by_factor floor_by_factor
    ceil_by_factor plan_grid
small_planned = refl

-- A width close to 2 ^ 32 is rounded to 2 ^ 32, which is 0 in 32 bits.
wide_image : round_by_factor (2 ^ 32 - 1) 32 ≡ 0
unfolding round_by_factor
wide_image = refl

abbrev comment : Segment
comment = record { marker = 0xfe; payload = bytes_of "hi" }

infer_jpeg_dimensions-encode_frame_example :
    infer_jpeg_dimensions
      (0xff ∷ 0xd8 ∷ encode_segments (comment ∷ []) (encode_frame 0xc0 8 8 480 640 (3 ∷ [])))
    ≡ ok (record { width = 640; height = 480 })
unfolding is_jpeg_sof_marker
infer_jpeg_dimensions-encode_frame_example =
    infer_jpeg_dimensions-encode_frame (comment ∷ []) 0xc0 8 8 480 640 (3 ∷ [])
      (record { not_fill = refl; not_end = refl; not_restart = refl; not_frame = refl }, tt) refl
      (omega arith) (omega arith) (omega arith) (omega arith)

abbrev marks_tokenizer : GgufTokenizer
marks_tokenizer = record {
  model = [];
  pre = qwen35_pre;
  chat_template = [];
  tokens = im_start ∷ im_end ∷ [];
  token_types = [];
  merges = [];
  token_to_id = (im_start, pos 0) ∷ (im_end, pos 1) ∷ [];
  merge_ranks = [];
  bos_token_id = negsuc 0;
  eos_token_id = negsuc 0;
  pad_token_id = negsuc 0;
  add_bos_token = false;
  add_eos_token = false;
}

abbrev part_of : ChatContentPartKind → List ℕ → ℕ → ℕ → ChatContentPart
part_of kind written width height = record {
  kind = kind;
  part_text = written;
  image_mime_type = [];
  image_bytes = [];
  image_fingerprint = 7;
  image_width = width;
  image_height = height;
}

abbrev two_images : List ChatMessage
two_images =
    (record { role = bytes_of "system"; content = bytes_of "Be brief."; content_parts = [] })
    ∷ (record {
      role = bytes_of "user";
      content = [];
      content_parts =
          part_of image_url [] 100 130
          ∷ part_of text (bytes_of "or") 0 0
          ∷ part_of image_url [] 100 130
          ∷ [];
    })
    ∷ []

abbrev no_decoder : List ℕ → List ℕ → Outcome Dimensions
no_decoder mime_type bytes = err invalid_argument

abbrev two_planned : PromptPlan
unfolding plan_multimodal_prompt plan_messages plan_content plan_parts plan_image_part
    image_part_dimensions add_image_chunk add_multimodal_text_chunk append_text_chunk is_role
    plan_image_embeddings is_qwen3vl_merger string_eq positive_u32_from_i64 merge_size
    checked_u64_mul pixel_limit smart_resize resized_side round_by_factor plan_grid
two_planned =
    value_or (plan_multimodal_prompt exact no_decoder small_metadata two_images true true)
      empty_plan

two_are_planned :
    plan_multimodal_prompt exact no_decoder small_metadata two_images true true ≡ ok two_planned
unfolding two_planned plan_multimodal_prompt plan_messages plan_content plan_parts plan_image_part
    image_part_dimensions add_image_chunk add_multimodal_text_chunk append_text_chunk is_role
    plan_image_embeddings is_qwen3vl_merger string_eq positive_u32_from_i64 merge_size
    checked_u64_mul pixel_limit smart_resize resized_side round_by_factor plan_grid
two_are_planned = refl

plan_multimodal_prompt-IsPrompt_example : IsPrompt marks_tokenizer two_images true true two_planned
unfolding gguf_token_id string_eq
plan_multimodal_prompt-IsPrompt_example =
    plan_multimodal_prompt-IsPrompt exact no_decoder small_metadata marks_tokenizer two_images true
      true refl refl two_are_planned

-- A text, an image and a text.
abbrev sample_plan : PromptPlan
sample_plan = record empty_plan {
  chunks =
      new_text_chunk sample 0 0
      ∷ (record (new_text_chunk [] 0 1) { kind = image_chunk; image_plan = small_plan })
      ∷ new_text_chunk (bytes_of "he") 0 2
      ∷ [];
}

tokenize_prompt_plan-Decodes_example :
    (tokens : TokenPlan) × (tokenize_prompt_plan small sample_plan ≡ ok tokens)
    × Decodes small (prompt_text sample_plan.chunks) (chunks_tokens sample_plan.chunks) tokens
tokenize_prompt_plan-Decodes_example =
    tokenize_prompt_plan-Decodes small_file small small_loaded small_model small_pre has_symbols
      has_merges IsPlain-specials sample_plan
      ((omega arith, tt), ((tt, refl), ((omega arith, tt), tt)))
