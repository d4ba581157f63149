-- ===== src/Tokenizer.antt =====
-- The GGUF tokenizer: src/runtime/gguf_tokenizer.cpp and gguf_tokenizer.hpp.
pub mod Utf8
pub mod Bytes
pub mod Alphabet
pub mod Flags
pub mod Words
pub mod Vocabulary
pub mod Bpe
pub mod Special
pub mod Codec
pub mod Decoding
pub mod Merges
pub mod Spelling
pub mod Tiling
pub mod Partition
pub mod RoundTrip
pub mod Merged
pub mod Chat
