-- ===== src/Tensor.antt =====
-- Shapes and sizes of tensors: src/core/tensor.cpp and include/toyllm/core/tensor.hpp.
pub mod Shape
pub mod Sizes
