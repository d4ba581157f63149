-- ===== src/Safetensors.antt =====
-- The safetensors reader: src/runtime/cpu/safetensors.cpp and safetensors.hpp.
pub mod Header
pub mod Ends
pub mod Ranges
pub mod Yields
pub mod Bounds
pub mod Load
