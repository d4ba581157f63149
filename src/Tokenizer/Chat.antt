-- ===== src/Tokenizer/Chat.antt =====
-- The chat prompt of Qwen3.5.
use kraken_infer.Base.{
  ℕ, Bool, true, false, ◌&&◌, ◌||◌, List, [], ◌∷◌, ◌++◌, Option, none, some, ℤ, if◌then◌else◌,
  string_eq, Outcome, ok, invalid_argument, guard, ◌>>=◌, ◌>>◌,
}
use kraken_infer.Tokenizer.Vocabulary.{GgufTokenizer, bytes_of, gguf_token_id}
use kraken_infer.Tokenizer.Codec.{qwen35_pre, gguf_encode_text}

pub data ChatContentPartKind : Type 0 where
  text image_url : ChatContentPartKind

-- The address and the detail of an image are read by other parts of the program.
pub record ChatContentPart : Type 0 where
  pub kind : ChatContentPartKind
  pub part_text : List ℕ
  pub image_mime_type : List ℕ
  pub image_bytes : List ℕ
  pub image_fingerprint : ℕ
  pub image_width : ℕ
  pub image_height : ℕ

-- The parts are read by the prompts with images alone.
pub record ChatMessage : Type 0 where
  pub role : List ℕ
  pub content : List ℕ
  pub content_parts : List ChatContentPart

abbrev pub im_start : List ℕ
im_start = bytes_of "<|im_start|>"

abbrev pub im_end : List ℕ
im_end = bytes_of "<|im_end|>"

abbrev pub has_value : Option ℤ → Bool
has_value none = false
has_value (some _) = true

unfoldable pub is_role : List ℕ → Bool
unfolding string_eq
is_role role =
    string_eq role (bytes_of "system")
    || string_eq role (bytes_of "user")
    || string_eq role (bytes_of "assistant")

-- The text that `append_chat_message` puts out.
unfoldable pub chat_message : ChatMessage → List ℕ
chat_message message =
    im_start ++ (message.role ++ (b'\n' ∷ (message.content ++ (im_end ++ b'\n' ∷ []))))

unfoldable pub chat_messages : List ChatMessage → Outcome (List ℕ)
unfolding is_role chat_message
chat_messages [] = ok []
chat_messages (message ∷ messages) = do
  guard (is_role message.role) invalid_argument
  prompt ← chat_messages messages
  ok (chat_message message ++ prompt)

abbrev pub generation_prompt : Bool → List ℕ
generation_prompt enable_thinking =
    bytes_of "<|im_start|>assistant\n"
    ++ (if enable_thinking then bytes_of "<think>\n" else bytes_of "<think>\n\n</think>\n\n")

unfoldable pub format_qwen35_chat_prompt :
    GgufTokenizer → List ChatMessage → Bool → Bool → Outcome (List ℕ)
unfolding string_eq gguf_token_id chat_messages
format_qwen35_chat_prompt tokenizer messages add_generation_prompt enable_thinking = do
  guard (string_eq tokenizer.pre qwen35_pre) invalid_argument
  guard (has_value (gguf_token_id tokenizer im_start) && has_value (gguf_token_id tokenizer im_end))
      invalid_argument
  prompt ← chat_messages messages
  ok (prompt ++ (if add_generation_prompt then generation_prompt enable_thinking else []))

unfoldable pub gguf_encode_qwen35_chat_prompt :
    GgufTokenizer → List ChatMessage → Bool → Bool → Outcome (List ℤ)
unfolding format_qwen35_chat_prompt gguf_encode_text
gguf_encode_qwen35_chat_prompt tokenizer messages add_generation_prompt enable_thinking = do
  prompt ← format_qwen35_chat_prompt tokenizer messages add_generation_prompt enable_thinking
  gguf_encode_text tokenizer prompt false true
