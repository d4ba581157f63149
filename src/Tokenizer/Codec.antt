-- ===== src/Tokenizer/Codec.antt =====
-- `gguf_encode_text` and `gguf_decode_token_text`.
use kraken_infer.Base.{
  ℕ, Bool, not, ◌&&◌, List, [], ◌∷◌, ◌++◌, Option, none, some, ℤ, if◌then◌else◌, string_eq, Outcome,
  ok, err, invalid_argument, guard, ◌>>=◌, ◌>>◌,
}
use kraken_infer.Tokenizer.Utf8.{CodepointSpan, utf8_codepoint_spans, substr, span_text}
use kraken_infer.Tokenizer.Bytes.{byte_decoder}
use kraken_infer.Tokenizer.Words.{split_qwen35_words}
use kraken_infer.Tokenizer.Vocabulary.{
  GgufTokenizer, bytes_of, valid_token_id, token_at, gguf_token_is_control,
}
use kraken_infer.Tokenizer.Bpe.{bpe_encode_word}
use kraken_infer.Tokenizer.Special.{Fragment, partition_special_tokens}

-- `append_special_bos` and `append_special_eos`: the ids with the token behind them.
unfoldable pub append_special : GgufTokenizer → Bool → ℤ → List ℤ → Outcome (List ℤ)
unfolding valid_token_id
append_special tokenizer add_token id ids =
    if not add_token
    then ok ids
    else if not (valid_token_id tokenizer id)
    then err invalid_argument
    else ok (ids ++ id ∷ [])

unfoldable pub append_special_bos : GgufTokenizer → List ℤ → Outcome (List ℤ)
unfolding append_special
append_special_bos tokenizer ids =
    append_special tokenizer tokenizer.add_bos_token tokenizer.bos_token_id ids

unfoldable pub append_special_eos : GgufTokenizer → List ℤ → Outcome (List ℤ)
unfolding append_special
append_special_eos tokenizer ids =
    append_special tokenizer tokenizer.add_eos_token tokenizer.eos_token_id ids

unfoldable pub words_ids : GgufTokenizer → List (List ℕ) → List ℤ
unfolding bpe_encode_word
words_ids tokenizer [] = []
words_ids tokenizer (word ∷ words) = bpe_encode_word tokenizer word ++ words_ids tokenizer words

unfoldable pub fragment_ids : GgufTokenizer → List ℕ → Fragment → List ℤ
unfolding words_ids split_qwen35_words
fragment_ids tokenizer text fragment =
    if fragment.token
    then fragment.token_id ∷ []
    else words_ids tokenizer (split_qwen35_words (substr text fragment.offset fragment.size))

unfoldable pub fragments_ids : GgufTokenizer → List ℕ → List Fragment → List ℤ
unfolding fragment_ids
fragments_ids tokenizer text [] = []
fragments_ids tokenizer text (fragment ∷ fragments) =
    fragment_ids tokenizer text fragment ++ fragments_ids tokenizer text fragments

abbrev pub gpt2_model : List ℕ
gpt2_model = bytes_of "gpt2"

abbrev pub qwen35_pre : List ℕ
qwen35_pre = bytes_of "qwen35"

unfoldable pub gguf_encode_text : GgufTokenizer → List ℕ → Bool → Bool → Outcome (List ℤ)
unfolding string_eq append_special_bos append_special_eos fragments_ids partition_special_tokens
gguf_encode_text tokenizer text add_special parse_special = do
  guard (string_eq tokenizer.model gpt2_model) invalid_argument
  guard (string_eq tokenizer.pre qwen35_pre) invalid_argument
  ids ← if add_special then append_special_bos tokenizer [] else ok []
  let fragments = partition_special_tokens tokenizer text parse_special
  let encoded = ids ++ fragments_ids tokenizer text fragments
  if add_special then append_special_eos tokenizer encoded else ok encoded

-- The byte that a code point stands for, or the bytes of the span.
abbrev pub decoded : List ℕ → CodepointSpan → Option ℕ → List ℕ
decoded token span none = span_text token span
decoded token span (some byte) = byte ∷ []

unfoldable pub decode_spans : List ℕ → List CodepointSpan → List ℕ
unfolding byte_decoder
decode_spans token [] = []
decode_spans token (span ∷ spans) =
    decoded token span (byte_decoder span.codepoint) ++ decode_spans token spans

unfoldable pub decode_token : List ℕ → List ℕ
unfolding decode_spans utf8_codepoint_spans
decode_token token = decode_spans token (utf8_codepoint_spans token)

-- The loop over the ids.
unfoldable pub gguf_decode_token_text : GgufTokenizer → List ℤ → Bool → Outcome (List ℕ)
unfolding valid_token_id gguf_token_is_control decode_token
gguf_decode_token_text tokenizer [] skip_control = ok []
gguf_decode_token_text tokenizer (id ∷ ids) skip_control = do
  guard (valid_token_id tokenizer id) invalid_argument
  rest ← gguf_decode_token_text tokenizer ids skip_control
  if skip_control && gguf_token_is_control tokenizer id
      then ok rest
      else ok (decode_token (token_at tokenizer id) ++ rest)
