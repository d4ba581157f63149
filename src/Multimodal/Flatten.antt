-- ===== src/Multimodal/Flatten.antt =====
-- A prompt with images against the prompt of the text path: `plan_qwen35_multimodal_prompt` against
-- `format_qwen35_chat_prompt` of src/runtime/gguf_tokenizer.cpp.
use kraken_infer.Base.{
  ℕ, suc, ◌+◌, ◌≡◌, refl, sym, List, [], ◌∷◌, ◌++◌, map, Outcome, ok, invalid_argument, Ensures,
  Ensures-ok, Ensures-implied, Ensures-chain, Ensures-bind, Ensures-guard, append-nil, append_assoc,
  arith,
}
use kraken_infer.Tokenizer.Vocabulary.{bytes_of}
use kraken_infer.Tokenizer.Chat.{
  ChatContentPartKind, ChatContentPartKind.text, ChatContentPartKind.image_url, ChatContentPart,
  ChatMessage, is_role, im_start, im_end, chat_message, chat_messages,
}
use kraken_infer.Multimodal.Resize.{Scaling, Dimensions}
use kraken_infer.Multimodal.Embedding.{Metadata, plan_image_embeddings}
use kraken_infer.Multimodal.Prompt.{
  PromptPlan, add_multimodal_text_chunk, vision_start, vision_end, image_part_dimensions,
  plan_image_part, plan_part, plan_parts, plan_content, plan_messages,
}
use kraken_infer.Multimodal.Reads.{
  Reads, Reads-same, add_multimodal_text_chunk-Reads, add_image_chunk-Reads,
}

-- What a part reads like: its text, or the marks around an image.
abbrev pub flat_part : ChatContentPartKind → ChatContentPart → List ℕ
flat_part text part = part.part_text
flat_part image_url part = vision_start ++ vision_end

abbrev pub part_images : ChatContentPartKind → ℕ
part_images text = 0
part_images image_url = 1

unfoldable pub flat_parts : List ChatContentPart → List ℕ
flat_parts [] = []
flat_parts (part ∷ parts) = flat_part part.kind part ++ flat_parts parts

unfoldable pub parts_images : List ChatContentPart → ℕ
parts_images [] = 0
parts_images (part ∷ parts) = part_images part.kind + parts_images parts

abbrev pub flat_content : List ℕ → List ChatContentPart → List ℕ
flat_content content [] = content
flat_content content (part ∷ parts) = flat_parts (part ∷ parts)

-- The message with its parts written as its content.
unfoldable pub flat_message : ChatMessage → ChatMessage
flat_message message = record message {
  content = flat_content message.content message.content_parts;
}

unfoldable pub messages_images : List ChatMessage → ℕ
messages_images [] = 0
messages_images (message ∷ messages) = parts_images message.content_parts + messages_images messages

-- The pieces of a message, added one by one, against the message of the text path.
pieces_of_message :
    (so_far role content prompt : List ℕ)
    → so_far ++ (im_start ++ (role ++ b'\n' ∷ [])) ++ content ++ bytes_of "<|im_end|>\n" ++ prompt
      ≡ so_far ++ ((im_start ++ (role ++ (b'\n' ∷ (content ++ (im_end ++ b'\n' ∷ []))))) ++ prompt)
pieces_of_message so_far role content prompt = simp append_assoc

module _ (scaling : Scaling) (decode_image : List ℕ → List ℕ → Outcome Dimensions)
    (metadata : Metadata) where
  plan_image_part-Reads :
      (message_index part_index : ℕ) (part : ChatContentPart) {so_far : List ℕ} {images : ℕ}
      {plan : PromptPlan}
      → Reads so_far images plan
      → Ensures
          (Reads (so_far ++ vision_start ++ vision_end) (suc images))
          (plan_image_part scaling decode_image metadata message_index part_index part plan)
  unfolding plan_image_part
  plan_image_part-Reads m p part {so_far} {images} {plan} r =
      let reads = Reads (so_far ++ vision_start ++ vision_end) (suc images) in
      Ensures-bind reads (image_part_dimensions scaling decode_image part) _ (λ dimensions is_size.
        Ensures-bind reads
          (plan_image_embeddings scaling metadata dimensions.width dimensions.height) _
          (λ image_plan is_plan. Ensures-ok reads (
            add_multimodal_text_chunk-Reads vision_end m p (
              add_image_chunk-Reads part.image_fingerprint m p image_plan
                (add_multimodal_text_chunk-Reads vision_start m p r)))))

  plan_part-Reads :
      (kind : ChatContentPartKind) (message_index part_index : ℕ) (part : ChatContentPart)
      {so_far : List ℕ} {images : ℕ} {plan : PromptPlan}
      → Reads so_far images plan
      → Ensures
          (Reads (so_far ++ flat_part kind part) (images + part_images kind))
          (plan_part scaling decode_image kind metadata message_index part_index part plan)
  plan_part-Reads text m p part {images} r =
      Ensures-ok (Reads _ _)
        (Reads-same refl (omega arith) (add_multimodal_text_chunk-Reads part.part_text m p r))
  plan_part-Reads image_url m p part {so_far} {images} r =
      Ensures-implied (plan_image_part scaling decode_image metadata m p part _)
        (λ next. Reads-same (append_assoc so_far vision_start vision_end) (omega arith))
        (plan_image_part-Reads m p part r)

  plan_parts-Reads :
      (message_index part_index : ℕ) (parts : List ChatContentPart) {so_far : List ℕ} {images : ℕ}
      {plan : PromptPlan}
      → Reads so_far images plan
      → Ensures
          (Reads (so_far ++ flat_parts parts) (images + parts_images parts))
          (plan_parts scaling decode_image metadata message_index part_index parts plan)
  unfolding plan_parts flat_parts parts_images
  plan_parts-Reads m p [] {so_far} {images} r =
      Ensures-ok (Reads _ _) (Reads-same (sym (append-nil so_far)) (omega arith) r)
  plan_parts-Reads m p (part ∷ parts) {so_far} {images} {plan} r =
      Ensures-chain (Reads _ _) (plan_part scaling decode_image part.kind metadata m p part plan) _
        (plan_part-Reads part.kind m p part r)
        (λ next reads.
          Ensures-implied (plan_parts scaling decode_image metadata m (suc p) parts next)
            (λ last.
              Reads-same (append_assoc so_far (flat_part part.kind part) (flat_parts parts))
                (omega arith))
            (plan_parts-Reads m (suc p) parts reads))

  plan_content-Reads :
      (message_index : ℕ) (content : List ℕ) (parts : List ChatContentPart) {so_far : List ℕ}
      {images : ℕ} {plan : PromptPlan}
      → Reads so_far images plan
      → Ensures
          (Reads (so_far ++ flat_content content parts) (images + parts_images parts))
          (plan_content scaling decode_image metadata message_index content parts plan)
  unfolding plan_content parts_images
  plan_content-Reads m content [] r =
      Ensures-ok (Reads _ _)
        (Reads-same refl (omega arith) (add_multimodal_text_chunk-Reads content m 0 r))
  plan_content-Reads m content (part ∷ parts) r = plan_parts-Reads m 0 (part ∷ parts) r

  -- The text path takes the messages, with their parts as text, and the plan reads like its prompt.
  abbrev IsChat : List ChatMessage → List ℕ → ℕ → PromptPlan → Type 0
  IsChat messages so_far images plan =
      (prompt : List ℕ) × (chat_messages (map flat_message messages) ≡ ok prompt)
      × Reads (so_far ++ prompt) (images + messages_images messages) plan

  pub plan_messages-IsChat :
      (message_index : ℕ) (messages : List ChatMessage) {so_far : List ℕ} {images : ℕ}
      {plan : PromptPlan}
      → Reads so_far images plan
      → Ensures
          (IsChat messages so_far images)
          (plan_messages scaling decode_image metadata message_index messages plan)
  unfolding plan_messages messages_images chat_messages chat_message flat_message
  plan_messages-IsChat m [] {so_far} {images} {plan} r =
      Ensures-ok (IsChat [] so_far images)
        ([], refl, Reads-same (sym (append-nil so_far)) (omega arith) r)
  plan_messages-IsChat m (message ∷ messages) {so_far} {images} {plan} r =
      let prefix = im_start ++ (message.role ++ b'\n' ∷ []) in
      let opened = add_multimodal_text_chunk plan prefix m 0 in
      let whole = IsChat (message ∷ messages) so_far images in
      Ensures-guard whole (is_role message.role) invalid_argument _ (λ has_role.
        Ensures-chain whole
          (plan_content scaling decode_image metadata m message.content message.content_parts
            opened)
          _
          (plan_content-Reads m message.content message.content_parts
            (add_multimodal_text_chunk-Reads prefix m 0 r))
          (λ filled reads.
            let closed = add_multimodal_text_chunk filled (bytes_of "<|im_end|>\n") m 0 in
            Ensures-implied (plan_messages scaling decode_image metadata (suc m) messages closed)
              (λ last (prompt, is_prompt, read). (
                chat_message (flat_message message) ++ prompt,
                rw (has_role, is_prompt) refl,
                Reads-same
                    (pieces_of_message so_far message.role
                      (flat_content message.content message.content_parts) prompt)
                    (omega arith) read,
              ))
              (plan_messages-IsChat (suc m) messages
                (add_multimodal_text_chunk-Reads (bytes_of "<|im_end|>\n") m 0 reads))))
