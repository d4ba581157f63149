-- ===== src/HostCache/Host.antt =====
-- State and methods of `Qwen35HostPrefixCache`. Paths and their `==` belong to the standard library,
-- and payloads are filled from and copied to Metal buffers: the section takes them as parameters.
use kraken_infer.Base.{
  ℕ, ◌+◌, Bool, true, false, not, ◌&&◌, ◌||◌, List, [], ◌∷◌, Option, none, some, ℤ, wrap, ltb, ◌==◌,
  if◌then◌else◌, length, Outcome, ok, ◌>>=◌,
}
use kraken_infer.PrefixCache.Index.{
  Config, Index, Found, Committed, init, lookup, commit_block, hash_for_block,
}

pub record Layout (FilePath : Type 0) : Type 0 where
  pub model_dir : FilePath
  pub model_file : FilePath
  pub gguf_version : ℕ
  pub gguf_tensor_count : ℕ
  pub gguf_metadata_count : ℕ
  pub gguf_file_size : ℕ
  pub tokenizer_fingerprint : ℕ
  pub block_tokens : ℕ
  pub full_attention_layers : ℕ
  pub linear_attention_layers : ℕ
  pub kv_dim : ℕ
  pub kv_element_bytes : ℕ
  pub hidden_size : ℕ
  pub recurrent_r_cache_bytes : ℕ
  pub recurrent_s_cache_bytes : ℕ
  pub kv_cache_f16 : Bool

pub record HostCache (FilePath Payload : Type 0) : Type 0 where
  pub index : Index
  pub layout : Option (Layout FilePath)
  pub payloads : List (ℕ × Payload)

pub record CommitResult : Type 0 where
  pub committed : Bool
  pub evicted : Bool

-- `std::unordered_map`: `find`, `erase` and `operator[] =`.
module _ {Payload : Type 0} where
  unfoldable pub get_payload : ℕ → List (ℕ × Payload) → Option Payload
  get_payload h [] = none
  get_payload h ((k, p) ∷ m) = if k == h then some p else get_payload h m

  unfoldable pub erase_payload : ℕ → List (ℕ × Payload) → List (ℕ × Payload)
  erase_payload h [] = []
  erase_payload h ((k, p) ∷ m) = if k == h then erase_payload h m else (k, p) ∷ erase_payload h m

  unfoldable pub set_payload : ℕ → Payload → List (ℕ × Payload) → List (ℕ × Payload)
  set_payload h p m = (h, p) ∷ erase_payload h m

pub bool_eq : Bool → Bool → Bool
bool_eq true b = b
bool_eq false b = not b

module _ {FilePath : Type 0} (path_eq : FilePath → FilePath → Bool) where
  -- `operator==` of two layouts.
  unfoldable pub layout_eq : Layout FilePath → Layout FilePath → Bool
  unfolding bool_eq
  layout_eq a b =
      path_eq a.model_dir b.model_dir
      && path_eq a.model_file b.model_file
      && a.gguf_version == b.gguf_version
      && a.gguf_tensor_count == b.gguf_tensor_count
      && a.gguf_metadata_count == b.gguf_metadata_count
      && a.gguf_file_size == b.gguf_file_size
      && a.tokenizer_fingerprint == b.tokenizer_fingerprint
      && a.block_tokens == b.block_tokens
      && a.full_attention_layers == b.full_attention_layers
      && a.linear_attention_layers == b.linear_attention_layers
      && a.kv_dim == b.kv_dim
      && a.kv_element_bytes == b.kv_element_bytes
      && a.hidden_size == b.hidden_size
      && a.recurrent_r_cache_bytes == b.recurrent_r_cache_bytes
      && a.recurrent_s_cache_bytes == b.recurrent_s_cache_bytes
      && bool_eq a.kv_cache_f16 b.kv_cache_f16

  -- `layout_.has_value() && *layout_ == layout`.
  unfoldable pub same_layout : Option (Layout FilePath) → Layout FilePath → Bool
  same_layout none l = false
  same_layout (some k) l = layout_eq k l

  unfoldable pub configure :
      {Payload : Type 0}
      → HostCache FilePath Payload
      → Layout FilePath
      → Config
      → HostCache FilePath Payload
  unfolding bool_eq same_layout
  configure s l config =
      let old = s.index.config in
      if same_layout s.layout l
        && config.block_tokens == old.block_tokens
        && config.capacity_blocks == old.capacity_blocks
        && config.min_reuse_tokens == old.min_reuse_tokens
        && bool_eq config.enabled old.enabled
      then s
      else record { index = init config; layout = some l; payloads = [] }

abbrev pub no_commit : CommitResult
no_commit = record { committed = false; evicted = false }

module _ {FilePath Payload : Type 0} where
  -- The method `lookup`.
  unfoldable pub host_lookup :
      HostCache FilePath Payload → List ℤ → HostCache FilePath Payload × Found
  host_lookup s tokens = let (index, r) = lookup s.index tokens in (record s { index = index }, r)

  -- The end of `commit_block`, on what the index answered.
  unfoldable pub store_payload :
      HostCache FilePath Payload
      → Payload
      → Index
      → Committed
      → HostCache FilePath Payload × CommitResult
  store_payload s payload index commit =
      let left =
        if commit.evicted then erase_payload commit.evicted_hash s.payloads else s.payloads in
      if not commit.inserted then (record s { index = index }, no_commit) else (
        record s { index = index; payloads = set_payload commit.hash payload left },
        record { committed = true; evicted = commit.evicted },
      )

  -- `commit_block` behind its guards; `read` is what `read_payload` returns.
  unfoldable pub commit_hash :
      HostCache FilePath Payload
      → Outcome Payload
      → List ℤ
      → ℕ
      → Option ℕ
      → Outcome (HostCache FilePath Payload × CommitResult)
  unfolding store_payload
  commit_hash s read tokens token_start none = ok (s, no_commit)
  commit_hash s read tokens token_start (some hash) = elim (get_payload hash s.payloads) [
    | some _ ↦ ok (s, no_commit)
    | none ↦ do
      payload ← read
      let (index, commit) = commit_block s.index tokens token_start
      ok (store_payload s payload index commit)
  ]

  unfoldable pub commit_layout :
      HostCache FilePath Payload
      → Outcome Payload
      → List ℤ
      → ℕ
      → ℕ
      → Option (Layout FilePath)
      → Outcome (HostCache FilePath Payload × CommitResult)
  commit_layout s read tokens token_start chunk_tokens none = ok (s, no_commit)
  commit_layout s read tokens token_start chunk_tokens (some l) =
      if not (chunk_tokens == l.block_tokens)
        || ltb (length tokens) (wrap (token_start + l.block_tokens))
      then ok (s, no_commit)
      else commit_hash s read tokens token_start (hash_for_block s.index tokens token_start)

  -- The method `commit_block`.
  unfoldable pub host_commit :
      HostCache FilePath Payload
      → Outcome Payload
      → List ℤ
      → ℕ
      → ℕ
      → Outcome (HostCache FilePath Payload × CommitResult)
  host_commit s read tokens token_start chunk_tokens =
      commit_layout s read tokens token_start chunk_tokens s.layout
