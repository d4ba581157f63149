-- ===== src/Gguf.antt =====
-- The GGUF model file reader: src/runtime/gguf_reader.cpp and gguf_reader.hpp.
pub mod Reader
pub mod Value
pub mod Layout
pub mod File
pub mod Get
pub mod Sizes
pub mod Moves
pub mod Yields
pub mod Bounds
pub mod Bytes
