-- ===== src/Lib.antt =====
-- Verification of kraken-infer, a C++ inference engine for Qwen models.
--
-- The engine answers chat requests. The parts modelled here are the memory it keeps (sizes of tensors,
-- the key/value cache of the CPU path, and the prefix cache, which remembers token blocks of earlier
-- prompts so that their key/value state need not be computed again), the two formats it reads a model
-- from (GGUF, and safetensors with a header in JSON), and the split of the model's answer into
-- reasoning and content, for a whole answer and for one that arrives in chunks.
--
--   Base          words, integers, lists, texts, Boolean tests and `Outcome`, a call that returns or
--                 throws
--   PrefixCache   src/runtime/qwen35_prefix_cache.cpp, the index `Qwen35PrefixCacheIndex`: hashed
--                 blocks, chained by parent hash, evicted least recently used first
--   HostCache     src/runtime/qwen35_runtime.cpp, `Qwen35HostPrefixCache`: the index together with a
--                 payload for each block it stores
--   Reasoning     src/runtime/reasoning_parser.cpp: Tags the tags and newlines, Split the whole text,
--                 Stream the state machine of `ReasoningStreamParser`; the other files relate them
--   Gguf          src/runtime/gguf_reader.cpp: Reader the cursor over the bytes, Value the metadata,
--                 Layout the sizes of tensor types, File the header, the entries and the data
--   Json          src/runtime/cpu/json_scanner.cpp: Scanner strings and numbers, Skip `skip_value`
--   Safetensors   src/runtime/cpu/safetensors.cpp: Header the header, its checks and `load`
--   Base64        src/runtime/qwen35_multimodal.cpp, `decode_base64`, for images in a request
--   Tokenizer     src/runtime/gguf_tokenizer.cpp: Utf8, Bytes the byte alphabet, Flags and Words the
--                 split into words, Vocabulary the loaded tables, Bpe the merging, Special the special
--                 tokens, Codec encoding and decoding, Chat the prompt; the other files are proofs
--   Multimodal    src/runtime/qwen35_multimodal.cpp, images in a prompt: Headers the sizes in PNG and
--                 JPEG files, Resize and Embedding the grid of an image's tokens, Prompt the chunks of
--                 text and images, Tokens their tokens; the other files are proofs
--   Tensor        src/core/tensor.cpp: element counts and byte sizes
--   KvCache       src/runtime/cpu/kv_cache.cpp: the array of keys and values and its addresses
--   Tests         concrete runs
--
-- A function keeps its source's name and the order of its arguments; a member function takes the
-- object's state first and returns the new state. Where two classes share a name, the host cache's
-- methods are `host_lookup` and `host_commit`, and `KvCache::stats` is `kv_stats`. A cursor over an
-- input is a function from what is unread to the result and what it leaves unread: a `Reader` over the
-- bytes of a GGUF file, and a `Scanner` over a text in JSON. A text is a list of bytes.
--
-- `std::size_t` and `std::uint64_t` are numbers below `2 ^ 64`, with `wrap` at each operation that can
-- wrap. `std::int64_t` is ℤ, and its cast to an enumeration keeps the low 32 bits. A throw or an error status is `err` with its kind, and `fails` in a
-- scanner; the text of messages is not modelled. Floats are a type parameter, since no theorem
-- computes with them.
--
-- Fuel: the loop of `lookup` gets the number of tokens plus one, and each round takes at least one
-- token; the loop of `parent_hash_for` gets the start of the block. `drain` gets the buffer's length
-- plus one, and each round that goes on shortens the buffer. The loops of the JSON scanner get
-- the length of what is unread plus one, and each round reads at least one byte; `skip_value` gets,
-- in place of fuel, the number of calls of itself that the call stack has room for: the source has no
-- limit of its own and overflows the stack on a value that is nested deeper. `load` takes the stack to
-- hold the nesting of what it skips. The merging of a word gets the number of its code
-- points, and each round shortens the word by one part. The loop over the segments of a JPEG file gets the
-- number of its bytes plus one, and each round reads at least one byte.
--
-- Parameters: the equality of paths, the copy of bytes to a Metal buffer (`copy_to_buffer_at` of
-- src/backends/mps), the result of `read_payload`, which reads such buffers, the `max_size` of a
-- vector, the value of a float or a double with given bits, the image decoder of the platform, and what the square roots and
-- quotients of doubles come to when an image is resized (`Scaling`).
--
-- Not modelled: Metal kernels, floating-point kernels, sockets, threads, the command line, the web
-- pages, the tokenizers of the other two paths, the pixels of images and the vision encoder, and the gateway's own JSON parser. A
-- lock around the shared cache makes its calls a sequence, which is the sequence of `Step`s. The
-- file system is the list of a file's bytes; the space that GGUF's `reserve` asks for is not
-- modelled, where a count too large for it makes the read fail in the source before the entries
-- run out. Where a safetensors header announces more bytes than fit behind the file's start in 64
-- bits, the source reads beyond the mapping, and no result of `load` is known (`exhausted`). Other
-- allocations than those of the key/value cache are taken to succeed.
pub mod Base
pub mod Tensor
pub mod KvCache
pub mod PrefixCache
pub mod HostCache
pub mod Gguf
pub mod Reasoning
pub mod Safetensors
pub mod Base64
pub mod Tokenizer
pub mod Multimodal
pub mod Json
pub mod Tests
