-- ===== src/Gguf/Bytes.antt =====
-- The bytes that `GgufMappedData` hands out for the tensors of a file that was read.
use kraken_infer.Base.{
  ℕ, ◌+◌, ◌≤◌, ◌<◌, ◌≡◌, List, [], ◌∷◌, All, All-map, length, take, drop, length-take, length-drop,
  u64_max, ok, arith,
}
use kraken_infer.Gguf.Reader.{read_pod}
use kraken_infer.Gguf.File.{TensorInfo, GgufFile, read_gguf_file, open_data, tensor_bytes}
use kraken_infer.Gguf.Bounds.{IsGood, read_gguf_file-IsWholeFile}

-- The call returns as many bytes as the tensor has.
abbrev pub HandsOut : List ℕ → TensorInfo → Type 0
HandsOut bytes t =
    (contents : List ℕ) × (tensor_bytes bytes t ≡ ok contents) × (length contents ≡ t.byte_size)

open_data_lem :
    {Real : Type 0} (bytes : List ℕ) (file : GgufFile Real)
    → 0 < length bytes
    → file.file_size ≡ length bytes
    → open_data bytes file ≡ ok bytes
unfolding open_data
open_data_lem bytes file some same = ground arith

tensor_bytes-HandsOut :
    (bytes : List ℕ) (t : TensorInfo)
    → 0 < length bytes
    → length bytes ≤ u64_max
    → t.absolute_offset + t.byte_size ≤ length bytes
    → HandsOut bytes t
unfolding tensor_bytes
tensor_bytes-HandsOut bytes t some small inside = (
  take t.byte_size (drop t.absolute_offset bytes),
  ground arith,
  omega (
    arith,
    length-take t.byte_size (drop t.absolute_offset bytes),
    length-drop t.absolute_offset bytes,
  ),
)

module _ {Real : Type 0} (float_value double_value : ℕ → Real) where
  not_empty :
      (bytes : List ℕ) {file : GgufFile Real}
      → read_gguf_file float_value double_value bytes ≡ ok file
      → 0 < length bytes
  unfolding read_gguf_file read_pod
  not_empty [] e = absurd (cc)
  not_empty (b ∷ bytes) e = omega arith

  -- A file that `read_gguf_file` returned can be opened while its bytes are the same, and
  -- `tensor_bytes` then succeeds for each of its tensors with exactly `byte_size` bytes. The
  -- condition: the number of bytes fits `std::uint64_t`.
  pub read_gguf_file-HandsOut :
      (bytes : List ℕ) (file : GgufFile Real)
      → length bytes ≤ u64_max
      → read_gguf_file float_value double_value bytes ≡ ok file
      → (open_data bytes file ≡ ok bytes) × All (HandsOut bytes) file.tensors
  read_gguf_file-HandsOut bytes file small e =
      let whole = read_gguf_file-IsWholeFile float_value double_value bytes file small e in
      let some = not_empty bytes {file = file} e in
      (
        open_data_lem bytes file some whole.size,
        All-map (IsGood (length bytes) file.data_offset) (HandsOut bytes) file.tensors
            (λ t good. tensor_bytes-HandsOut bytes t some small good.1.inside) whole.tensors_inside,
      )
