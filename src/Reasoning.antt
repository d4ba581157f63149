-- ===== src/Reasoning.antt =====
-- The reasoning parser: src/runtime/reasoning_parser.cpp and reasoning_parser.hpp.
pub mod Tags
pub mod Split
pub mod Stream
pub mod Drain
pub mod Sections
pub mod Deltas
pub mod Loop
pub mod Holds
pub mod Phases
pub mod Rounds
pub mod Emitted
pub mod Thoughts
pub mod Chunks
