-- ===== src/Multimodal/ChatPrompt.antt =====
-- A whole prompt with images against the prompt of the text path: `plan_qwen35_multimodal_prompt`
-- against `format_qwen35_chat_prompt` of src/runtime/gguf_tokenizer.cpp.
use kraken_infer.Base.{
  wrap, ℕ, ◌+◌, ◌≡◌, refl, sym, ap, ◌∙◌, Bool, true, false, ◌&&◌, List, [], ◌∷◌, ◌++◌, map, length,
  if◌then◌else◌, Outcome, ok, invalid_argument, Ensures-ok, Ensures-chain, Ensures-guard,
  Ensures_lem, string_eq, append-nil, append_assoc, arith,
}
use kraken_infer.Tokenizer.Vocabulary.{bytes_of, GgufTokenizer, gguf_token_id}
use kraken_infer.Tokenizer.Codec.{qwen35_pre}
use kraken_infer.Tokenizer.Chat.{
  ChatMessage, im_start, im_end, has_value, chat_messages, generation_prompt,
  format_qwen35_chat_prompt,
}
use kraken_infer.Multimodal.Resize.{Scaling, Dimensions}
use kraken_infer.Multimodal.Embedding.{Metadata, is_qwen3vl_merger}
use kraken_infer.Multimodal.Prompt.{
  ChunkKind, text_chunk, image_chunk, count_chunk, PromptChunk, PromptPlan, empty_plan,
  plan_messages, plan_multimodal_prompt, prompted, count_chunks,
}
use kraken_infer.Multimodal.Reads.{
  Reads, Reads-same, prompt_text, image_indexes, chunks_tokens, numbers_below,
  add_multimodal_text_chunk-Reads,
}
use kraken_infer.Multimodal.Flatten.{flat_message, messages_images, plan_messages-IsChat}

-- What the text path adds.
abbrev generated : Bool → Bool → List ℕ
generated false enable_thinking = []
generated true enable_thinking = generation_prompt enable_thinking

prompted-Reads :
    (add_generation enable_thinking : Bool) (messages : List ChatMessage) {so_far : List ℕ}
    {images : ℕ} {plan : PromptPlan}
    → Reads so_far images plan
    → Reads
        (so_far ++ generated add_generation enable_thinking)
        images
        (prompted add_generation enable_thinking messages plan)
prompted-Reads false enable_thinking messages {so_far} r =
    Reads-same (sym (append-nil so_far)) refl r
prompted-Reads true enable_thinking messages {so_far} r =
    let start = bytes_of "<|im_start|>assistant\n" in
    let thinking =
      if enable_thinking then bytes_of "<think>\n" else bytes_of "<think>\n\n</think>\n\n" in
    let n = length messages in
    Reads-same (append_assoc so_far start thinking) refl
      (add_multimodal_text_chunk-Reads thinking n 0 (add_multimodal_text_chunk-Reads start n 0 r))

count_chunk-Reads :
    (kind : ChunkKind) {t : List ℕ} {n : ℕ} {plan : PromptPlan}
    → Reads t n plan
    → Reads t n (count_chunk kind plan)
count_chunk-Reads text_chunk r = record {
  read = r.read;
  counted = r.counted;
  numbered = r.numbered;
  tokens = r.tokens;
}
count_chunk-Reads image_chunk r = record {
  read = r.read;
  counted = r.counted;
  numbered = r.numbered;
  tokens = r.tokens;
}

count_chunks-Reads :
    (chunks : List PromptChunk) {t : List ℕ} {n : ℕ} {plan : PromptPlan}
    → Reads t n plan
    → Reads t n (count_chunks chunks plan)
count_chunks-Reads [] r = r
count_chunks-Reads (chunk ∷ chunks) r = count_chunks-Reads chunks (count_chunk-Reads chunk.kind r)

empty_plan-Reads : Reads [] 0 empty_plan
unfolding prompt_text image_indexes numbers_below chunks_tokens
empty_plan-Reads = record { read = refl; counted = refl; numbered = refl; tokens = refl }

-- The plan reads like the prompt of the text path, and its images are those of the messages.
abbrev pub IsPrompt : GgufTokenizer → List ChatMessage → Bool → Bool → PromptPlan → Type 0
IsPrompt tokenizer messages add_generation enable_thinking plan =
    (format_qwen35_chat_prompt tokenizer (map flat_message messages) add_generation enable_thinking
      ≡ ok (prompt_text plan.chunks))
    × (image_indexes plan.chunks ≡ numbers_below (messages_images messages))
    × (plan.image_tokens ≡ wrap (chunks_tokens plan.chunks))

format_qwen35_chat_prompt-generated :
    (tokenizer : GgufTokenizer) (messages : List ChatMessage)
    (add_generation enable_thinking : Bool) {prompt : List ℕ}
    → string_eq tokenizer.pre qwen35_pre ≡ true
    → (has_value (gguf_token_id tokenizer im_start) && has_value (gguf_token_id tokenizer im_end))
      ≡ true
    → chat_messages messages ≡ ok prompt
    → format_qwen35_chat_prompt tokenizer messages add_generation enable_thinking
      ≡ ok (prompt ++ generated add_generation enable_thinking)
unfolding format_qwen35_chat_prompt
format_qwen35_chat_prompt-generated tokenizer messages false enable_thinking is_pre marks e =
    rw (is_pre, marks, e) refl
format_qwen35_chat_prompt-generated tokenizer messages true enable_thinking is_pre marks e =
    rw (is_pre, marks, e) refl

-- For a tokenizer of Qwen3.5 with the marks of a message, a prompt with images that is planned reads
-- like the prompt that the text path returns for the same messages, where each image part is
-- written as its two marks. The image chunks are numbered from 0 in the order of the prompt, one for
-- each image part of the messages, and `image_tokens` is the sum of the tokens of their plans
-- as a `std::size_t`.
pub plan_multimodal_prompt-IsPrompt :
    (scaling : Scaling) (decode_image : List ℕ → List ℕ → Outcome Dimensions) (metadata : Metadata)
    (tokenizer : GgufTokenizer) (messages : List ChatMessage)
    (add_generation enable_thinking : Bool) {plan : PromptPlan}
    → string_eq tokenizer.pre qwen35_pre ≡ true
    → (has_value (gguf_token_id tokenizer im_start) && has_value (gguf_token_id tokenizer im_end))
      ≡ true
    → plan_multimodal_prompt scaling decode_image metadata messages add_generation enable_thinking
      ≡ ok plan
    → IsPrompt tokenizer messages add_generation enable_thinking plan
unfolding plan_multimodal_prompt
plan_multimodal_prompt-IsPrompt scaling decode_image metadata tokenizer messages add_generation
      enable_thinking is_pre marks =
    let whole = IsPrompt tokenizer messages add_generation enable_thinking in
    Ensures_lem whole (
      Ensures-guard whole (is_qwen3vl_merger metadata) invalid_argument _ (λ is_merger.
        Ensures-chain whole (plan_messages scaling decode_image metadata 0 messages empty_plan) _
          (plan_messages-IsChat scaling decode_image metadata 0 messages empty_plan-Reads)
          (λ plan (prompt, is_prompt, reads).
            let chunks = (prompted add_generation enable_thinking messages plan).chunks in
            let all : 0 + messages_images messages ≡ messages_images messages = omega arith in
            let final = count_chunks-Reads chunks (
              prompted-Reads add_generation enable_thinking messages (Reads-same refl all reads)) in
            Ensures-ok whole (
              format_qwen35_chat_prompt-generated tokenizer (map flat_message messages)
                    add_generation enable_thinking is_pre marks is_prompt
                  ∙ ap ok (sym final.read),
              final.numbered,
              final.tokens,
            ))))
