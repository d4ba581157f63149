-- ===== src/Tests/Tokenizer.antt =====
-- Runs of the tokenizer, on a vocabulary of the byte alphabet, one merge and one special token.
use kraken_infer.Base.{
  ◌+◌, ◌^◌, ℕ, ◌<◌, List, [], ◌∷◌, ◌++◌, ◌≡◌, refl, ℤ, pos, negsuc, Option, none, some, Bool, true,
  false, ok, replicate, all_below, all_below_sound, All, string_eq, string_eq-eq, Bool-cases, inl,
  inr, arith,
}
use kraken_infer.Gguf.Value.{Variant, MetadataValue, text, texts, signeds, ValueKind, string, array}
use kraken_infer.Gguf.File.{GgufFile, find_entry}
use kraken_infer.Tokenizer.Bytes.{byte_encoder, byte_encoded, build_byte_encoder}
use kraken_infer.Tokenizer.Words.{
  split_qwen35_words, words_from, add_word, word_end, contraction_end, letters_end, number_end,
  others_end, whitespace_end, get_cpt, get_flags, last_line_end, count_while, span_end_byte,
}
use kraken_infer.Tokenizer.Utf8.{utf8_codepoint_spans}
use kraken_infer.Tokenizer.Flags.{ascii_tolower, unicode_flags}
use kraken_infer.Tokenizer.Vocabulary.{
  GgufTokenizer, bytes_of, normal_type, control_type, user_defined_type, to_token_type, pair_key,
  value_or, load_gguf_tokenizer, add_merges, add_tokens,
}
use kraken_infer.Tokenizer.Special.{special_token_ids}
use kraken_infer.Tokenizer.Codec.{decode_token, gguf_encode_text, gguf_decode_token_text}
use kraken_infer.Tokenizer.Merges.{IsRanked}
use kraken_infer.Tokenizer.Partition.{IsPlain}
use kraken_infer.Tokenizer.Bpe.{bpe_parts}
use kraken_infer.Tokenizer.Tiling.{Slices, split_qwen35_words-Slices}
use kraken_infer.Tokenizer.Merged.{IsMerged, bpe_parts-IsMerged}
use kraken_infer.Tokenizer.RoundTrip.{HasToken, decode-encode}

abbrev metadata_of : ValueKind → Variant (Unit {0}) → MetadataValue (Unit {0})
metadata_of kind value = record { kind = kind; array_kind = string; value = value }

abbrev small_tokens : List (List ℕ)
unfolding build_byte_encoder
small_tokens = build_byte_encoder ++ bytes_of "he" ∷ bytes_of "<|im_end|>" ∷ []

abbrev pub small_file : GgufFile (Unit {0})
unfolding small_tokens
small_file = record {
  version = 3;
  tensor_count = 0;
  metadata_count = 5;
  file_size = 0;
  alignment = 32;
  data_offset = 0;
  tensors = [];
  metadata =
      (bytes_of "tokenizer.ggml.model", metadata_of string (text (bytes_of "gpt2")))
      ∷ (bytes_of "tokenizer.ggml.pre", metadata_of string (text (bytes_of "qwen35")))
      ∷ (bytes_of "tokenizer.ggml.tokens", metadata_of array (texts small_tokens))
      ∷ (
        bytes_of "tokenizer.ggml.token_type",
        metadata_of array (signeds (replicate 257 (pos normal_type) ++ pos control_type ∷ [])),
      )
      ∷ (bytes_of "tokenizer.ggml.merges", metadata_of array (texts (bytes_of "h e" ∷ [])))
      ∷ [];
}

abbrev empty_tokenizer : GgufTokenizer
empty_tokenizer = record {
  model = [];
  pre = [];
  chat_template = [];
  tokens = [];
  token_types = [];
  merges = [];
  token_to_id = [];
  merge_ranks = [];
  bos_token_id = negsuc 0;
  eos_token_id = negsuc 0;
  pad_token_id = negsuc 0;
  add_bos_token = false;
  add_eos_token = false;
}

abbrev pub small : GgufTokenizer
unfolding load_gguf_tokenizer small_file
small = value_or (load_gguf_tokenizer small_file) empty_tokenizer

pub small_loaded : load_gguf_tokenizer small_file ≡ ok small
unfolding load_gguf_tokenizer small_file small find_entry add_merges add_tokens
small_loaded = refl

words_of_text :
    split_qwen35_words (bytes_of "I'm here 42!!")
    ≡ bytes_of "I"
      ∷ bytes_of "'m"
      ∷ byte_encoded (bytes_of " here")
      ∷ byte_encoded (bytes_of " ")
      ∷ bytes_of "4"
      ∷ bytes_of "2"
      ∷ bytes_of "!"
      ∷ bytes_of "!"
      ∷ []
unfolding split_qwen35_words words_from add_word word_end byte_encoded byte_encoder contraction_end
    letters_end number_end others_end whitespace_end get_cpt get_flags utf8_codepoint_spans
    ascii_tolower unicode_flags last_line_end count_while span_end_byte
words_of_text = refl

is_some : {A : Type 0} → Option A → Bool
is_some none = false
is_some (some _) = true

some_of_is_some : {A : Type 0} (o : Option A) → is_some o ≡ true → (a : A) × (o ≡ some a)
unfolding is_some
some_of_is_some none e = absurd (cc)
some_of_is_some (some a) e = (a, refl)

symbols_known :
    all_below 256 (λ byte. is_some (find_entry (byte_encoder byte) small.token_to_id)) ≡ true
unfolding all_below is_some find_entry byte_encoder small add_merges add_tokens
symbols_known = refl

pub small_model : small.model ≡ bytes_of "gpt2"
unfolding small add_merges add_tokens
small_model = refl

pub small_pre : small.pre ≡ bytes_of "qwen35"
unfolding small add_merges add_tokens
small_pre = refl

pub has_symbols : (byte : ℕ) → byte < 256 → HasToken small (byte_encoder byte)
has_symbols byte less = some_of_is_some (find_entry (byte_encoder byte) small.token_to_id) (
    all_below_sound 256 (λ b. is_some (find_entry (byte_encoder b) small.token_to_id)) byte
      symbols_known less)

split_key :
    (first second : List ℕ)
    → 104 ∷ 31 ∷ 101 ∷ [] ≡ first ++ 31 ∷ second
    → first ++ second ≡ 104 ∷ 101 ∷ []
split_key [] second e = absurd (ground arith)
split_key (x ∷ []) second e = ground arith
split_key (x ∷ y ∷ []) second e = absurd (ground arith)
split_key (x ∷ y ∷ z ∷ []) second e = absurd (ground arith)
split_key (x ∷ y ∷ z ∷ w ∷ first) second e = absurd (ground arith)

found_key :
    (key : List ℕ) {rank : ℕ}
    → find_entry key ((104 ∷ 31 ∷ 101 ∷ [], 0) ∷ []) ≡ some rank
    → 104 ∷ 31 ∷ 101 ∷ [] ≡ key
unfolding find_entry
found_key key e = elim (Bool-cases (string_eq (104 ∷ 31 ∷ 101 ∷ []) key)) [
  | inl same ↦ string_eq-eq (104 ∷ 31 ∷ 101 ∷ []) key same
  | inr other ↦ absurd (let f = rw other at e in cc)
]

small_ranks : small.merge_ranks ≡ (104 ∷ 31 ∷ 101 ∷ [], 0) ∷ []
unfolding small add_merges add_tokens
small_ranks = refl

known_merge : HasToken small (bytes_of "he")
unfolding find_entry small add_merges add_tokens
known_merge = (pos 256, refl)

pub has_merges :
    (first second : List ℕ)
    → IsRanked small.merge_ranks first second
    → HasToken small (first ++ second)
unfolding pair_key
has_merges first second (rank, e) =
    let key = found_key (pair_key first second) {rank = rank} (rw small_ranks at e) in
    rw (split_key first second key) known_merge

pub IsPlain-specials : All (IsPlain small) (special_token_ids small true)
unfolding special_token_ids decode_token small add_merges add_tokens
IsPlain-specials = ((omega arith, refl), tt)

abbrev pub sample : List ℕ
sample = bytes_of "he said:<|im_end|> \n"

decode-encode_example :
    (ids : List ℤ) × (gguf_encode_text small sample false true ≡ ok ids)
    × (gguf_decode_token_text small ids false ≡ ok sample)
decode-encode_example =
    decode-encode small_file sample true {tokenizer = small} small_loaded small_model small_pre
      (omega arith) has_symbols has_merges IsPlain-specials

split_qwen35_words-Slices_example : Slices sample (split_qwen35_words sample)
split_qwen35_words-Slices_example = split_qwen35_words-Slices sample (omega arith)

bpe_parts-IsMerged_example :
    IsMerged small.merge_ranks (bpe_parts small.merge_ranks (bytes_of "hehe"))
bpe_parts-IsMerged_example = bpe_parts-IsMerged small.merge_ranks (bytes_of "hehe")

-- The cast to the enumeration drops the high bits of a type.
wide_type : to_token_type (pos (2 ^ 32 + 4)) ≡ user_defined_type
wide_type = refl
