-- ===== src/Base64.antt =====
-- Image data in base64: `decode_base64` of src/runtime/qwen35_multimodal.cpp.
pub mod Decode
pub mod Blanks
pub mod RoundTrip
