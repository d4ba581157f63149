-- ===== src/Tests/HostCache.antt =====
-- The shared host cache: the device is the list of the copies made to it, the last one first.
use kraken_infer.Base.{
  ℕ, ◌≡◌, refl, true, List, [], ◌∷◌, none, ℤ, pos, ◌==◌, length, replicate, Outcome, ok, arith,
}
use kraken_infer.PrefixCache.Hash.{compute_hash, parent_hash_for}
use kraken_infer.PrefixCache.Index.{
  Config, init, find_block, touch, is_off, accepts, take_hit, lookup_loop, enough_reuse,
  count_lookup, lookup, allocate_slot, insert_block, reuse_block, commit_at, commit_block,
  hash_for_block,
}
use kraken_infer.HostCache.Host.{
  HostCache, Layout, CommitResult, get_payload, erase_payload, set_payload, layout_eq, same_layout,
  configure, host_lookup, store_payload, commit_hash, commit_layout, host_commit,
}
use kraken_infer.HostCache.Device.{
  HostPayload, CachePlan, DeviceBuffer, checked_mul_size, active_kv_byte_offset,
  kv_block_layer_bytes, kv_layer_payload_offset, restore_layer, restore_layers, restore_kv_block,
  restore_buffer, restore_recurrent, restore_blocks, restore_last, restore_with, restore,
}
use kraken_infer.HostCache.Agree.{IsConsistent}
use kraken_infer.HostCache.Steps.{Reach, configured, committed, here, next, Reach-IsConsistent}
use kraken_infer.HostCache.Restore.{Named, copy_payloads, restore-host_lookup}

program : Unit {0}
unfolding init compute_hash parent_hash_for find_block touch is_off accepts take_hit lookup_loop
    enough_reuse count_lookup lookup allocate_slot insert_block reuse_block commit_at commit_block
    hash_for_block get_payload erase_payload set_payload layout_eq same_layout configure host_lookup
    store_payload commit_hash commit_layout host_commit checked_mul_size active_kv_byte_offset
    kv_block_layer_bytes kv_layer_payload_offset restore_layer restore_layers restore_kv_block
    restore_buffer restore_recurrent restore_blocks restore_last restore_with restore
program = tt

abbrev settings : Config
settings = record { enabled = true; block_tokens = 2; capacity_blocks = 1; min_reuse_tokens = 0 }

abbrev layout : Layout ℕ
layout = record {
  model_dir = 1;
  model_file = 2;
  gguf_version = 3;
  gguf_tensor_count = 4;
  gguf_metadata_count = 5;
  gguf_file_size = 6;
  tokenizer_fingerprint = 7;
  block_tokens = 2;
  full_attention_layers = 1;
  linear_attention_layers = 3;
  kv_dim = 2;
  kv_element_bytes = 2;
  hidden_size = 16;
  recurrent_r_cache_bytes = 32;
  recurrent_s_cache_bytes = 32;
  kv_cache_f16 = true;
}

abbrev prompt : List ℤ
prompt = pos 5 ∷ pos 6 ∷ pos 7 ∷ pos 8 ∷ []

-- A payload of one layer: a block of two tokens has eight bytes of keys and eight of values.
abbrev payload_of : ℕ → ℕ → HostPayload
payload_of key value = record {
  key_cache = replicate 8 key;
  value_cache = replicate 8 value;
  recurrent_r_cache = [];
  recurrent_s_cache = 9 ∷ [];
  last_hidden = [];
}

abbrev first : HostPayload
first = payload_of 5 6

abbrev second : HostPayload
second = payload_of 7 8

abbrev empty : HostCache ℕ HostPayload
empty = record { index = init settings; layout = none; payloads = [] }

abbrev ready : HostCache ℕ HostPayload
ready = configure (λ a b. a == b) empty layout settings

abbrev result_of : Outcome (HostCache ℕ HostPayload × CommitResult) → HostCache ℕ HostPayload
result_of (ok (s, r)) = s
result_of (Outcome.err e) = empty

abbrev one : HostCache ℕ HostPayload
one = result_of (host_commit ready (ok first) prompt 0 2)

abbrev two : HostCache ℕ HostPayload
two = result_of (host_commit one (ok second) prompt 2 2)

-- The second block takes the only slot, and the first one's payload goes with it.
two_payloads : length two.payloads ≡ 1
unfolding program
two_payloads = refl

two-Reach : Reach (λ a b. a == b) empty two
unfolding program
two-Reach =
    next
      (next (next here (configured layout settings)) (
        committed (ok first) prompt 0 2 (record { ticks = omega arith; small = omega arith }) refl))
      (committed (ok second) prompt 2 2 (record { ticks = omega arith; small = omega arith }) refl)

one-Reach : Reach (λ a b. a == b) empty one
unfolding program
one-Reach =
    next (next here (configured layout settings))
      (committed (ok first) prompt 0 2 (record { ticks = omega arith; small = omega arith }) refl)

one-IsConsistent : IsConsistent one
one-IsConsistent = Reach-IsConsistent (λ a b. a == b) empty settings refl refl one-Reach

Reach-IsConsistent_example : IsConsistent two
Reach-IsConsistent_example = Reach-IsConsistent (λ a b. a == b) empty settings refl refl two-Reach

-- The copy of bytes to an offset of a buffer, which succeeds.
abbrev record_copy : DeviceBuffer → ℕ → List ℕ → List (ℕ × List ℕ) → Outcome (List (ℕ × List ℕ))
record_copy buffer offset bytes device = ok ((offset, bytes) ∷ device)

abbrev cache_plan : CachePlan
cache_plan = record { attention_capacity_tokens = 8; kv_dim = 2; kv_cache_element_bytes = 2 }

-- The block's keys and values, at the block's place, and the recurrent cache that is not empty.
one_restored :
    restore record_copy one cache_plan (host_lookup one prompt).1.block_hashes []
    ≡ ok ((0, 9 ∷ []) ∷ (0, replicate 8 6) ∷ (0, replicate 8 5) ∷ [])
unfolding program
one_restored = refl

restore-host_lookup_example :
    (named : List HostPayload) × Named one.payloads (host_lookup one prompt).1.block_hashes named
    × (restore record_copy
          (host_lookup one prompt).0
          cache_plan
          (host_lookup one prompt).1.block_hashes
          []
        ≡ copy_payloads record_copy cache_plan one.layout named [])
unfolding program
restore-host_lookup_example =
    restore-host_lookup record_copy one cache_plan prompt [] one-IsConsistent (omega arith)
