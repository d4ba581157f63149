-- ===== src/KvCache.antt =====
-- The CPU key/value cache: src/runtime/cpu/kv_cache.cpp and kv_cache.hpp.
pub mod Cache
pub mod Copy
pub mod Layout
pub mod Reads
