-- ===== src/HostCache/Device.antt =====
-- The methods of `Qwen35HostPrefixCache` that copy a payload to the device: `restore`,
-- `restore_kv_block` and `restore_recurrent`. `MpsContext::copy_to_buffer_at`, a call of Metal, is a
-- parameter: it copies bytes to an offset of one of the four buffers of the device's cache.
use kraken_infer.Base.{
  ℕ, zero, suc, ◌+◌, ◌-◌, ◌*◌, not, List, [], ◌∷◌, Option, none, some, wrap, u64_max,
  product_exceeds, ltb, take, drop, is_empty, if◌then◌else◌, Outcome, ok, err, invalid_argument,
  guard, ◌>>=◌, ◌>>◌,
}
use kraken_infer.HostCache.Host.{HostCache, Layout, get_payload}

pub record HostPayload : Type 0 where
  pub key_cache : List ℕ
  pub value_cache : List ℕ
  pub recurrent_r_cache : List ℕ
  pub recurrent_s_cache : List ℕ
  pub last_hidden : List ℕ

-- The fields of `plan.cache` that the copies read.
pub record CachePlan : Type 0 where
  pub attention_capacity_tokens : ℕ
  pub kv_dim : ℕ
  pub kv_cache_element_bytes : ℕ

-- The buffers of `Qwen35MetalCache`.
pub data DeviceBuffer : Type 0 where
  key_buffer value_buffer recurrent_r_buffer recurrent_s_buffer : DeviceBuffer

unfoldable pub checked_mul_size : ℕ → ℕ → Outcome ℕ
checked_mul_size lhs rhs = do guard (not (product_exceeds rhs lhs)) invalid_argument; ok (lhs * rhs)

unfoldable pub active_kv_byte_offset : CachePlan → ℕ → ℕ → Outcome ℕ
unfolding checked_mul_size
active_kv_byte_offset plan layer token_start = do
  row ← checked_mul_size layer plan.attention_capacity_tokens
  guard (not (ltb (u64_max - row) token_start)) invalid_argument
  elements ← checked_mul_size (row + token_start) plan.kv_dim
  checked_mul_size elements plan.kv_cache_element_bytes

-- The bytes behind a pointer into a vector; `read_payload` makes the vectors long enough.
abbrev pub bytes_at : List ℕ → ℕ → ℕ → List ℕ
bytes_at bytes offset size = take size (drop offset bytes)

module _ {FilePath : Type 0} where
  unfoldable pub kv_block_layer_bytes : Layout FilePath → Outcome ℕ
  unfolding checked_mul_size
  kv_block_layer_bytes layout = do
    elements ← checked_mul_size layout.block_tokens layout.kv_dim
    checked_mul_size elements layout.kv_element_bytes

  unfoldable pub kv_layer_payload_offset : Layout FilePath → ℕ → Outcome ℕ
  unfolding kv_block_layer_bytes checked_mul_size
  kv_layer_payload_offset layout layer = kv_block_layer_bytes layout >>= checked_mul_size layer

module _ {Device : Type 0}
    (copy_to_buffer_at : DeviceBuffer → ℕ → List ℕ → Device → Outcome Device) where
  -- The body of the loop over the layers.
  unfoldable pub restore_layer :
      {FilePath : Type 0}
      → Layout FilePath
      → CachePlan
      → HostPayload
      → ℕ
      → ℕ
      → ℕ
      → Device
      → Outcome Device
  unfolding active_kv_byte_offset kv_layer_payload_offset
  restore_layer layout plan payload token_start block_bytes layer device = do
    destination_offset ← active_kv_byte_offset plan layer token_start
    payload_offset ← kv_layer_payload_offset layout layer
    keyed ←
        copy_to_buffer_at key_buffer destination_offset
          (bytes_at payload.key_cache payload_offset block_bytes) device
    copy_to_buffer_at value_buffer destination_offset
        (bytes_at payload.value_cache payload_offset block_bytes) keyed

  -- The loop, with so many layers left from number `layer` on.
  unfoldable pub restore_layers :
      {FilePath : Type 0}
      → ℕ
      → Layout FilePath
      → CachePlan
      → HostPayload
      → ℕ
      → ℕ
      → ℕ
      → Device
      → Outcome Device
  unfolding restore_layer
  restore_layers zero layout plan payload token_start block_bytes layer device = ok device
  restore_layers (suc left) layout plan payload token_start block_bytes layer device =
      restore_layer layout plan payload token_start block_bytes layer device
      >>= restore_layers left layout plan payload token_start block_bytes (suc layer)

  unfoldable pub restore_kv_block :
      {FilePath : Type 0} → Layout FilePath → CachePlan → HostPayload → ℕ → Device → Outcome Device
  unfolding kv_block_layer_bytes restore_layers
  restore_kv_block layout plan payload token_start device = do
    block_bytes ← kv_block_layer_bytes layout
    restore_layers layout.full_attention_layers layout plan payload token_start block_bytes 0 device

  -- A recurrent cache that the payload holds.
  unfoldable pub restore_buffer : DeviceBuffer → List ℕ → Device → Outcome Device
  restore_buffer buffer bytes device =
      if is_empty bytes then ok device else copy_to_buffer_at buffer 0 bytes device

  unfoldable pub restore_recurrent : HostPayload → Device → Outcome Device
  unfolding restore_buffer
  restore_recurrent payload device =
      restore_buffer recurrent_r_buffer payload.recurrent_r_cache device
      >>= restore_buffer recurrent_s_buffer payload.recurrent_s_cache

  -- The loop over the blocks, from block number `number` on.
  unfoldable pub restore_blocks :
      {FilePath : Type 0}
      → Layout FilePath
      → CachePlan
      → ℕ
      → List (ℕ × HostPayload)
      → List ℕ
      → Device
      → Outcome Device
  unfolding restore_kv_block
  restore_blocks layout plan number payloads [] device = ok device
  restore_blocks layout plan number payloads (h ∷ hashes) device = elim (get_payload h payloads) [
    | none ↦ err invalid_argument
    | some p ↦
        restore_kv_block layout plan p (wrap (number * layout.block_tokens)) device
        >>= restore_blocks layout plan (suc number) payloads hashes
  ]

  -- The recurrent state of the last block.
  unfoldable pub restore_last : List (ℕ × HostPayload) → List ℕ → Device → Outcome Device
  unfolding restore_recurrent
  restore_last payloads [] device = ok device
  restore_last payloads (h ∷ []) device = elim (get_payload h payloads) [
    | none ↦ err invalid_argument
    | some p ↦ restore_recurrent p device
  ]
  restore_last payloads (h ∷ h' ∷ hashes) device = restore_last payloads (h' ∷ hashes) device

  -- The method `restore`, by its layout.
  unfoldable pub restore_with :
      {FilePath : Type 0}
      → CachePlan
      → Option (Layout FilePath)
      → List (ℕ × HostPayload)
      → List ℕ
      → Device
      → Outcome Device
  unfolding restore_blocks restore_last
  restore_with plan none payloads hashes device = ok device
  restore_with plan (some layout) payloads hashes device =
      restore_blocks layout plan 0 payloads hashes device >>= restore_last payloads hashes

  unfoldable pub restore :
      {FilePath : Type 0}
      → HostCache FilePath HostPayload
      → CachePlan
      → List ℕ
      → Device
      → Outcome Device
  unfolding restore_with
  restore s plan hashes device = restore_with plan s.layout s.payloads hashes device
