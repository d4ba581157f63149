-- ===== src/Gguf/File.antt =====
-- `read_gguf_file`, from the bytes of the mapped file on, and the byte ranges of tensors.
use kraken_infer.Base.{
  string_eq, ℕ, zero, suc, ◌+◌, ◌-◌, not, ◌||◌, ◌&&◌, List, [], ◌∷◌, Option, none, some, wrap,
  u64_max, ltb, ◌==◌, if◌then◌else◌, length, take, drop, Outcome, ok, err, invalid_argument, guard,
  ◌>>=◌, ◌>>◌,
}
use kraken_infer.Gguf.Reader.{Reader, read_pod, read_string}
use kraken_infer.Gguf.Value.{MetadataValue, Variant, unsigned, read_items, read_value}
use kraken_infer.Gguf.Layout.{align_up, tensor_nbytes}

pub record TensorInfo : Type 0 where
  pub name : List ℕ
  pub shape : List ℕ
  pub type : ℕ
  pub offset : ℕ
  pub absolute_offset : ℕ
  pub byte_size : ℕ

-- The path, by which the file was opened, is left out.
pub record GgufFile (Real : Type 0) : Type 0 where
  pub version : ℕ
  pub tensor_count : ℕ
  pub metadata_count : ℕ
  pub file_size : ℕ
  pub alignment : ℕ
  pub data_offset : ℕ
  pub tensors : List TensorInfo
  pub metadata : List (List ℕ × MetadataValue Real)

-- `0x46554747U`, the bytes "GGUF".
abbrev pub gguf_magic : ℕ
gguf_magic = 1179993927

abbrev pub default_alignment : ℕ
default_alignment = 32

-- "general.alignment".
abbrev pub alignment_key : List ℕ
alignment_key =
    103 ∷ 101 ∷ 110 ∷ 101 ∷ 114 ∷ 97 ∷ 108 ∷ 46 ∷ 97 ∷ 108 ∷ 105 ∷ 103 ∷ 110 ∷ 109 ∷ 101 ∷ 110 ∷ 116
    ∷ []

-- The tensor's entry in the file.
unfoldable pub read_tensor : Reader → Outcome (TensorInfo × Reader)
unfolding read_items tensor_nbytes
read_tensor r = do
  (name, r) ← read_string r
  (n_dims, r) ← read_pod 4 r
  guard (not (n_dims == 0 || ltb 4 n_dims)) invalid_argument
  (shape, r) ← read_items (read_pod 8) n_dims r
  (type, r) ← read_pod 4 r
  (offset, r) ← read_pod 8 r
  byte_size ← tensor_nbytes shape type
  ok (
    record {
      name = name;
      shape = shape;
      type = type;
      offset = offset;
      absolute_offset = 0;
      byte_size = byte_size;
    },
    r,
  )

-- The body of the last loop: the tensor's place in the file.
unfoldable pub place_tensor : ℕ → ℕ → TensorInfo → Outcome TensorInfo
place_tensor file_size data_offset t = do
  guard (not (ltb (file_size - data_offset) t.offset)) invalid_argument
  let absolute_offset = wrap (data_offset + t.offset)
  guard (not (not (t.byte_size == 0) && ltb (file_size - absolute_offset) t.byte_size))
      invalid_argument
  ok (record t { absolute_offset = absolute_offset })

unfoldable pub place_tensors : ℕ → ℕ → List TensorInfo → Outcome (List TensorInfo)
unfolding place_tensor
place_tensors file_size data_offset [] = ok []
place_tensors file_size data_offset (t ∷ tensors) = do
  t ← place_tensor file_size data_offset t
  tensors ← place_tensors file_size data_offset tensors
  ok (t ∷ tensors)

-- `catch (const std::exception&)`.
unfoldable pub catch_exception : {A : Type 0} → Outcome A → Outcome A
catch_exception (ok a) = ok a
catch_exception (err _) = err invalid_argument

unfoldable pub find_entry : {A : Type 0} → List ℕ → List (List ℕ × A) → Option A
unfolding string_eq
find_entry key [] = none
find_entry key ((k, v) ∷ entries) = if string_eq k key then some v else find_entry key entries

-- `metadata.emplace`, which keeps the value of a key that is there.
unfoldable pub emplace : {A : Type 0} → List ℕ → A → List (List ℕ × A) → List (List ℕ × A)
emplace key value entries = elim (find_entry key entries) [
  | none ↦ (key, value) ∷ entries
  | some _ ↦ entries
]

-- `find_gguf_tensor`, on the file's tensors.
unfoldable pub find_tensor : List ℕ → List TensorInfo → Option TensorInfo
unfolding string_eq
find_tensor name [] = none
find_tensor name (t ∷ tensors) = if string_eq t.name name then some t else find_tensor name tensors

module _ {Real : Type 0} where
  unfoldable pub find_gguf_metadata : GgufFile Real → List ℕ → Option (MetadataValue Real)
  unfolding find_entry
  find_gguf_metadata file key = find_entry key file.metadata

  unfoldable pub alignment_variant : Variant Real → ℕ
  alignment_variant (unsigned n) = n
  alignment_variant _ = default_alignment

  -- The file's alignment, by its metadata.
  unfoldable pub alignment_of : List (List ℕ × MetadataValue Real) → ℕ
  unfolding alignment_variant find_entry
  alignment_of metadata = elim (find_entry alignment_key metadata) [
    | none ↦ default_alignment
    | some v ↦ alignment_variant v.value
  ]

  -- The end of `read_gguf_file`, once the tensors' entries were read.
  unfoldable pub place_file : ℕ → GgufFile Real → Outcome (GgufFile Real)
  unfolding place_tensors align_up
  place_file position file = do
    data_offset ← align_up position file.alignment
    guard (not (ltb file.file_size data_offset)) invalid_argument
    tensors ← place_tensors file.file_size data_offset file.tensors
    ok (record file { data_offset = data_offset; tensors = tensors })

module _ {Real : Type 0} (float_value double_value : ℕ → Real) where
  unfoldable pub read_metadata :
      ℕ
      → List (List ℕ × MetadataValue Real)
      → Reader
      → Outcome (List (List ℕ × MetadataValue Real) × Reader)
  unfolding read_value emplace
  read_metadata zero entries r = ok (entries, r)
  read_metadata (suc count) entries r = do
    (key, r) ← read_string r
    (value, r) ← read_value float_value double_value r
    read_metadata count (emplace key value entries) r

  -- The entries of the file, before its tensors are placed, and the position behind them.
  unfoldable pub read_entries : Reader → Outcome (GgufFile Real × Reader)
  unfolding read_metadata alignment_of read_tensor
  read_entries r = do
    let size = length r.bytes
    (magic, r) ← read_pod 4 r
    guard (magic == gguf_magic) invalid_argument
    (version, r) ← read_pod 4 r
    guard (not (ltb version 2 || ltb 3 version)) invalid_argument
    (tensor_count, r) ← read_pod 8 r
    (metadata_count, r) ← read_pod 8 r
    (metadata, r) ← read_metadata metadata_count [] r
    (tensors, r) ← read_items read_tensor tensor_count r
    ok (
      record {
        version = version;
        tensor_count = tensor_count;
        metadata_count = metadata_count;
        file_size = size;
        alignment = alignment_of metadata;
        data_offset = 0;
        tensors = tensors;
        metadata = metadata;
      },
      r,
    )

  unfoldable pub read_gguf_file : List ℕ → Outcome (GgufFile Real)
  unfolding catch_exception read_entries place_file
  read_gguf_file bytes = catch_exception (do
    (file, r) ← read_entries (record { bytes = bytes; position = 0 })
    place_file r.position file)

-- The mapped file: its bytes, after `open` found them as long as `file_size`.
unfoldable pub open_data : {Real : Type 0} → List ℕ → GgufFile Real → Outcome (List ℕ)
open_data bytes file = do
  guard (not (length bytes == 0)) invalid_argument
  guard (length bytes == file.file_size) invalid_argument
  ok bytes

-- `tensor_bytes`, with the bytes that the result points to; no data is what `valid` refuses.
unfoldable pub tensor_bytes : List ℕ → TensorInfo → Outcome (List ℕ)
tensor_bytes bytes t = do
  let size = length bytes
  guard (not (size == 0)) invalid_argument
  guard (not (ltb u64_max t.byte_size)) invalid_argument
  guard (not (ltb size t.absolute_offset || ltb (size - t.absolute_offset) t.byte_size))
      invalid_argument
  ok (take t.byte_size (drop t.absolute_offset bytes))
