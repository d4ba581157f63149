-- ===== src/Multimodal.antt =====
-- Images in a prompt: src/runtime/qwen35_multimodal.cpp and qwen35_multimodal.hpp.
pub mod Resize
pub mod Embedding
pub mod Grid
pub mod Headers
pub mod Jpeg
pub mod Rounds
pub mod Prompt
pub mod Reads
pub mod Flatten
pub mod ChatPrompt
pub mod Tokens
pub mod Decodes
