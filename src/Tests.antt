-- ===== src/Tests.antt =====
-- Concrete runs of the components, and the properties applied to them.
mod PrefixCache
mod HostCache
mod Tensor
mod KvCache
mod Gguf
mod Reasoning
mod Safetensors
mod Base64
mod Tokenizer
mod Multimodal
mod Json
