-- ===== src/Tests/Gguf.antt =====
-- A file with one tensor, and the offsets and sizes that are read from it.
use kraken_infer.Base.{
  ℕ, ◌+◌, ◌*◌, ◌%◌, ◌≤◌, ◌<◌, ◌≡◌, refl, List, [], ◌∷◌, ◌++◌, replicate, All, u64_max, ok, err,
  runtime_error, arith,
}
use kraken_infer.Gguf.Reader.{read_pod, read_string}
use kraken_infer.Gguf.Layout.{TypeLayout, align_up, tensor_nbytes, ggml_type_layout}
use kraken_infer.Gguf.File.{TensorInfo, GgufFile, read_gguf_file, open_data, tensor_bytes}
use kraken_infer.Gguf.Sizes.{align_up-least, elements_of, tensor_nbytes-exact}
use kraken_infer.Gguf.Bounds.{IsWholeFile, read_gguf_file-IsWholeFile}
use kraken_infer.Gguf.Bytes.{HandsOut, read_gguf_file-HandsOut}

program : Unit {0}
unfolding read_gguf_file read_pod read_string align_up tensor_nbytes
program = tt

-- A bit pattern stands for the number here.
abbrev number : ℕ → ℕ
number n = n

abbrev word : ℕ → List ℕ
word n = n ∷ 0 ∷ 0 ∷ 0 ∷ []

abbrev long : ℕ → List ℕ
long n = n ∷ replicate 7 0

-- One tensor "t" of one `F32`, at the start of the data.
abbrev entries : List ℕ
entries = long 1 ++ 116 ∷ word 1 ++ long 1 ++ word 0 ++ long 0

abbrev bytes : List ℕ
bytes =
    (71 ∷ 71 ∷ 85 ∷ 70 ∷ [])
    ++ word 3
    ++ long 1
    ++ long 0
    ++ entries
    ++ replicate 7 0
    ++ 1 ∷ 2 ∷ 3 ∷ 4 ∷ []

abbrev tensor : TensorInfo
tensor = record {
  name = 116 ∷ [];
  shape = 1 ∷ [];
  type = 0;
  offset = 0;
  absolute_offset = 64;
  byte_size = 4;
}

abbrev file : GgufFile ℕ
file = record {
  version = 3;
  tensor_count = 1;
  metadata_count = 0;
  file_size = 68;
  alignment = 32;
  data_offset = 64;
  tensors = tensor ∷ [];
  metadata = [];
}

file_read : read_gguf_file number number bytes ≡ ok file
unfolding program
file_read = refl

tensor_read : tensor_bytes bytes tensor ≡ ok (1 ∷ 2 ∷ 3 ∷ 4 ∷ [])
unfolding tensor_bytes
tensor_read = refl

part_of_a_block : tensor_nbytes (33 ∷ []) 2 ≡ err runtime_error
unfolding program
part_of_a_block = refl

read_gguf_file-IsWholeFile_example : IsWholeFile bytes file
read_gguf_file-IsWholeFile_example =
    read_gguf_file-IsWholeFile number number bytes file (omega arith) file_read

read_gguf_file-HandsOut_example :
    (open_data bytes file ≡ ok bytes) × All (HandsOut bytes) file.tensors
read_gguf_file-HandsOut_example =
    read_gguf_file-HandsOut number number bytes file (omega arith) file_read

align_up-least_example : (0 < 32) × (64 % 32 ≡ 0) × (57 ≤ 64) × (64 < 57 + 32) × (64 ≤ u64_max)
unfolding program
align_up-least_example = align_up-least 57 32 (omega arith) refl

tensor_nbytes-exact_example :
    (l : TypeLayout) × (ggml_type_layout 2 ≡ ok l)
    × (blocks : ℕ) × (elements_of (2 ∷ 32 ∷ []) ≡ blocks * l.block_size)
    × (36 ≡ blocks * l.type_size)
    × (36 ≤ u64_max)
unfolding program
tensor_nbytes-exact_example = tensor_nbytes-exact (2 ∷ 32 ∷ []) 2 refl
