-- ===== src/PrefixCache.antt =====
-- The exact-prefix block index of src/runtime/qwen35_prefix_cache.cpp and its header
-- include/toyllm/runtime/qwen35_prefix_cache.hpp. `Hash` holds the hash chain, `Index` the state
-- and the operations; the other children prove their properties.
pub mod Hash
pub mod Index
pub mod Chain
pub mod Blocks
pub mod Victim
pub mod Valid
pub mod Lookup
pub mod Longest
pub mod Commit
pub mod Stores
pub mod Room
pub mod RoundTrip
