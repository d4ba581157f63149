-- ===== src/HostCache.antt =====
-- `Qwen35HostPrefixCache` of src/runtime/qwen35_runtime.cpp: the block index together with the
-- payloads that a block's cache contents were copied to.
pub mod Host
pub mod Device
pub mod Agree
pub mod Steps
pub mod Restore
