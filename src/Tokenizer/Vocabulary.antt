-- ===== src/Tokenizer/Vocabulary.antt =====
-- `GgufTokenizer`, and how it is loaded from the metadata of a file. The hash tables are lists of pairs.
use Prim.Native.String.{String}
use Prim.Native.Char.{code}
use kraken_infer.Base.{
  to_u64, ◌%◌, ℕ, ◌+◌, ◌-◌, ◌^◌, Bool, false, not, ◌||◌, List, [], ◌∷◌, ◌++◌, Option, none, some, ℤ,
  pos, negsuc, ltb, ◌==◌, if◌then◌else◌, length, take, drop, replicate, get_or, find, Outcome, ok,
  err, invalid_argument, guard, ◌>>=◌, ◌>>◌,
}
use kraken_infer.Gguf.Value.{Variant, texts}
use kraken_infer.Gguf.File.{GgufFile, find_gguf_metadata, find_entry, emplace}
use kraken_infer.Gguf.Get.{
  gguf_get_string, gguf_get_i64, gguf_get_bool, gguf_get_i64_array, i64_max,
}

pub record GgufTokenizer : Type 0 where
  pub model : List ℕ
  pub pre : List ℕ
  pub chat_template : List ℕ
  pub tokens : List (List ℕ)
  pub token_types : List ℤ
  pub merges : List (List ℕ)
  pub token_to_id : List (List ℕ × ℤ)
  pub merge_ranks : List (List ℕ × ℕ)
  pub bos_token_id : ℤ
  pub eos_token_id : ℤ
  pub pad_token_id : ℤ
  pub add_bos_token : Bool
  pub add_eos_token : Bool

-- The codes of `GgufTokenType`, an enumeration of 32 bits.
abbrev pub normal_type : ℕ
normal_type = 1

abbrev pub unknown_type : ℕ
unknown_type = 2

abbrev pub control_type : ℕ
control_type = 3

abbrev pub user_defined_type : ℕ
user_defined_type = 4

abbrev pub unused_type : ℕ
unused_type = 5

-- `static_cast<GgufTokenType>` of a `std::int64_t`, which keeps its low 32 bits.
abbrev pub to_token_type : ℤ → ℕ
to_token_type value = to_u64 value % 2 ^ 32

-- The metadata keys.
abbrev pub bytes_of : String → List ℕ
bytes_of String.[] = []
bytes_of (String.◌∷◌ c s) = code c ∷ bytes_of s

unfoldable pub pair_key : List ℕ → List ℕ → List ℕ
pair_key first second = first ++ 0x1F ∷ second

module _ {Real : Type 0} where
  unfoldable pub texts_of : Variant Real → Outcome (List (List ℕ))
  texts_of (texts values) = ok values
  texts_of _ = err invalid_argument

  unfoldable pub get_string_array : GgufFile Real → List ℕ → Outcome (List (List ℕ))
  unfolding texts_of find_gguf_metadata
  get_string_array gguf key = elim (find_gguf_metadata gguf key) [
    | none ↦ err invalid_argument
    | some value ↦ texts_of value.value
  ]

-- The value of a call, or a default where it fails.
abbrev pub value_or : {A : Type 0} → Outcome A → A → A
value_or (ok value) fallback = value
value_or (err _) fallback = fallback

-- The ranks of the merges from number `i` on.
unfoldable pub add_merges : ℕ → List (List ℕ) → List (List ℕ × ℕ) → Outcome (List (List ℕ × ℕ))
unfolding find emplace pair_key
add_merges i [] ranks = ok ranks
add_merges i (merge ∷ merges) ranks = elim (find (drop 1 merge) (b' ' ∷ [])) [
  | none ↦ add_merges (i + 1) merges ranks
  | some at_space ↦ do
    let split = at_space + 1
    guard (not (ltb (2 ^ 31 - 1) i)) invalid_argument
    add_merges (i + 1) merges
        (emplace (pair_key (take split merge) (drop (split + 1) merge)) i ranks)
]

-- The ids of the tokens from number `id` on.
unfoldable pub add_tokens : ℕ → List (List ℕ) → List (List ℕ × ℤ) → Outcome (List (List ℕ × ℤ))
unfolding emplace
add_tokens id [] ids = ok ids
add_tokens id (token ∷ tokens) ids = do
  guard (not (ltb i64_max id)) invalid_argument
  add_tokens (id + 1) tokens (emplace token (pos id) ids)

module _ {Real : Type 0} where
  -- The token types, all normal where the file has none; and the merges, none where it has none.
  unfoldable pub types_of : GgufFile Real → ℕ → List ℤ
  unfolding gguf_get_i64_array
  types_of gguf size =
      value_or (gguf_get_i64_array gguf (bytes_of "tokenizer.ggml.token_type"))
        (replicate size (pos normal_type))

  unfoldable pub merges_of : GgufFile Real → List (List ℕ)
  unfolding get_string_array
  merges_of gguf = value_or (get_string_array gguf (bytes_of "tokenizer.ggml.merges")) []

  unfoldable pub load_gguf_tokenizer : GgufFile Real → Outcome GgufTokenizer
  unfolding types_of merges_of get_string_array gguf_get_string gguf_get_i64 gguf_get_bool
  load_gguf_tokenizer gguf = do
    tokens ← get_string_array gguf (bytes_of "tokenizer.ggml.tokens")
    guard (length (types_of gguf (length tokens)) == length tokens) invalid_argument
    merge_ranks ← add_merges 0 (merges_of gguf) []
    token_to_id ← add_tokens 0 tokens []
    ok (record {
      model = value_or (gguf_get_string gguf (bytes_of "tokenizer.ggml.model")) [];
      pre = value_or (gguf_get_string gguf (bytes_of "tokenizer.ggml.pre")) [];
      chat_template = value_or (gguf_get_string gguf (bytes_of "tokenizer.chat_template")) [];
      tokens = tokens;
      token_types = types_of gguf (length tokens);
      merges = merges_of gguf;
      token_to_id = token_to_id;
      merge_ranks = merge_ranks;
      bos_token_id =
          value_or (gguf_get_i64 gguf (bytes_of "tokenizer.ggml.bos_token_id")) (negsuc 0);
      eos_token_id =
          value_or (gguf_get_i64 gguf (bytes_of "tokenizer.ggml.eos_token_id")) (negsuc 0);
      pad_token_id =
          value_or (gguf_get_i64 gguf (bytes_of "tokenizer.ggml.padding_token_id")) (negsuc 0);
      add_bos_token = value_or (gguf_get_bool gguf (bytes_of "tokenizer.ggml.add_bos_token")) false;
      add_eos_token = value_or (gguf_get_bool gguf (bytes_of "tokenizer.ggml.add_eos_token")) false;
    })

unfoldable pub gguf_token_id : GgufTokenizer → List ℕ → Option ℤ
unfolding find_entry
gguf_token_id tokenizer token = find_entry token tokenizer.token_to_id

-- A valid id is the position of a token.
unfoldable pub valid_token_id : GgufTokenizer → ℤ → Bool
valid_token_id tokenizer (pos id) = ltb id (length tokenizer.tokens)
valid_token_id tokenizer (negsuc _) = false

-- `tokens[id]` and `token_types[id]`.
abbrev pub token_at : GgufTokenizer → ℤ → List ℕ
token_at tokenizer (pos id) = get_or tokenizer.tokens id []
token_at tokenizer (negsuc _) = []

abbrev pub type_at : GgufTokenizer → ℤ → ℤ
type_at tokenizer (pos id) = get_or tokenizer.token_types id (negsuc 0)
type_at tokenizer (negsuc _) = negsuc 0

unfoldable pub gguf_token_is_control : GgufTokenizer → ℤ → Bool
unfolding valid_token_id
gguf_token_is_control tokenizer id =
    let type = to_token_type (type_at tokenizer id) in
    if not (valid_token_id tokenizer id) then false else type == control_type || type == unused_type
