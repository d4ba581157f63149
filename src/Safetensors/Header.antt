-- ===== src/Safetensors/Header.antt =====
-- `SafeTensorMap`: the header in JSON that lists the tensors, the checks of its entries, and `load` on
-- the bytes of the mapped file. The tables of the source's `unordered_map` are lists of pairs.
use kraken_infer.Base.{
  ℕ, zero, suc, ◌+◌, ◌-◌, ◌*◌, Bool, true, false, not, ◌&&◌, ◌||◌, List, [], ◌∷◌, Option, none,
  some, map, wrap, u64_max, ltb, leb, ◌==◌, if◌then◌else◌, length, take, drop, ok, err, is_empty,
  string_eq,
}
use kraken_infer.Json.Monad.{
  Scanned, Scanner, scanned, fails, exhausted, return, fail, run_out, ◌>>=◌, ◌>>◌,
}
use kraken_infer.Json.Scanner.{expect, consume, parse_string, parse_uint_array}
use kraken_infer.Json.Skip.{skip_value}
use kraken_infer.Gguf.Reader.{little_endian}
use kraken_infer.Gguf.Layout.{product}
use kraken_infer.Gguf.File.{find_entry, emplace}

-- `data_pointer` is the `data` of the source: the offset of the pointer from the mapped file's first byte, and `none` is `nullptr`.
pub record TensorView : Type 0 where
  pub name : List ℕ
  pub dtype : List ℕ
  pub shape : List ℕ
  pub data_pointer : Option ℕ
  pub data_offset_begin : ℕ
  pub data_offset_end : ℕ
  pub byte_size : ℕ

abbrev pub Tensors : Type 0
Tensors = List (List ℕ × TensorView)

pub record SafeTensorMap : Type 0 where
  pub mapped_data : List ℕ
  pub file_size : ℕ
  pub header_size : ℕ
  pub data_start : ℕ
  pub tensors : Tensors

abbrev pub new_tensor : List ℕ → TensorView
new_tensor name = record {
  name = name;
  dtype = [];
  shape = [];
  data_pointer = none;
  data_offset_begin = 0;
  data_offset_end = 0;
  byte_size = 0;
}

-- The words of the header.
abbrev pub bf16_word : List ℕ
bf16_word = b'B' ∷ b'F' ∷ b'1' ∷ b'6' ∷ []

abbrev pub metadata_word : List ℕ
metadata_word =
    b'_' ∷ b'_' ∷ b'm' ∷ b'e' ∷ b't' ∷ b'a' ∷ b'd' ∷ b'a' ∷ b't' ∷ b'a' ∷ b'_' ∷ b'_' ∷ []

abbrev pub dtype_word : List ℕ
dtype_word = b'd' ∷ b't' ∷ b'y' ∷ b'p' ∷ b'e' ∷ []

abbrev pub shape_word : List ℕ
shape_word = b's' ∷ b'h' ∷ b'a' ∷ b'p' ∷ b'e' ∷ []

abbrev pub data_offsets_word : List ℕ
data_offsets_word =
    b'd' ∷ b'a' ∷ b't' ∷ b'a' ∷ b'_' ∷ b'o' ∷ b'f' ∷ b'f' ∷ b's' ∷ b'e' ∷ b't' ∷ b's' ∷ []

-- `skip_value` on a call stack that has room for the nesting of what is unread.
unfoldable pub skip_any : Scanner (Unit {0})
unfolding skip_value
skip_any input = skip_value (suc (length input)) input

unfoldable pub parse_dtype : TensorView → Scanner TensorView
unfolding parse_string string_eq
parse_dtype t = do
  dtype ← parse_string
  if string_eq dtype bf16_word then return (record t { dtype = dtype }) else fail

unfoldable pub parse_shape : TensorView → Scanner TensorView
unfolding parse_uint_array
parse_shape t = do shape ← parse_uint_array; return (record t { shape = shape })

-- What `load` knows when it reads the header: where the data begins, and the size of the file.
module _ (data_start file_size : ℕ) where
  unfoldable pub place_range : TensorView → ℕ → ℕ → Scanner TensorView
  place_range t begin end =
      if ltb end begin
      then fail
      else if ltb file_size (wrap (data_start + end))
      then fail
      else return (record t {
        byte_size = end - begin;
        data_offset_begin = begin;
        data_offset_end = end;
        data_pointer = some (wrap (data_start + begin));
      })

  unfoldable pub place_offsets : TensorView → List ℕ → Scanner TensorView
  unfolding place_range
  place_offsets t (begin ∷ end ∷ []) = place_range t begin end
  place_offsets t [] = fail
  place_offsets t (_ ∷ []) = fail
  place_offsets t (_ ∷ _ ∷ _ ∷ _) = fail

  unfoldable pub parse_data_offsets : TensorView → Scanner TensorView
  unfolding parse_uint_array place_offsets
  parse_data_offsets t = do offsets ← parse_uint_array; place_offsets t offsets

  -- The value behind a key of a tensor.
  unfoldable pub parse_member : TensorView → List ℕ → Scanner TensorView
  unfolding string_eq parse_dtype parse_shape parse_data_offsets skip_any
  parse_member t key =
      if string_eq key dtype_word
      then parse_dtype t
      else if string_eq key shape_word
      then parse_shape t
      else if string_eq key data_offsets_word
      then parse_data_offsets t
      else (skip_any >> return t)

  -- The inner loop of `parse_header`.
  unfoldable pub members_loop : ℕ → TensorView → Scanner TensorView
  unfolding parse_string expect consume parse_member
  members_loop zero t = run_out
  members_loop (suc fuel) t = do
    key ← parse_string
    expect b':'
    t ← parse_member t key
    closed ← consume b'}'
    let rest = do expect b','; members_loop fuel t
    if closed then return t else rest

  -- Each round reads at least one byte.
  unfoldable pub parse_members : TensorView → Scanner TensorView
  unfolding members_loop
  parse_members t input = members_loop (suc (length input)) t input

  -- The checks behind the loop; `product` is the same function as in the GGUF reader.
  unfoldable pub has_byte_size : TensorView → Bool
  unfolding product
  has_byte_size t = elim (product t.shape) [
    | err _ ↦ false
    | ok elements ↦ wrap (elements * 2) == t.byte_size
  ]

  unfoldable pub check_tensor : TensorView → Scanner TensorView
  unfolding has_byte_size
  check_tensor t = if is_empty t.dtype then fail else if has_byte_size t then return t else fail

  unfoldable pub parse_tensor : List ℕ → Scanner TensorView
  unfolding expect parse_members check_tensor
  parse_tensor name = do expect b'{'; t ← parse_members (new_tensor name); check_tensor t

  -- One entry of the header.
  unfoldable pub parse_entry : Tensors → List ℕ → Scanner Tensors
  unfolding string_eq skip_any parse_tensor emplace
  parse_entry tensors name =
      if string_eq name metadata_word
      then (skip_any >> return tensors)
      else do t ← parse_tensor name; return (emplace name t tensors)

  -- The outer loop of `parse_header`.
  unfoldable pub header_loop : ℕ → Tensors → Scanner Tensors
  unfolding parse_string expect consume parse_entry
  header_loop zero tensors = run_out
  header_loop (suc fuel) tensors = do
    name ← parse_string
    expect b':'
    tensors ← parse_entry tensors name
    closed ← consume b'}'
    let rest = do expect b','; header_loop fuel tensors
    if closed then return tensors else rest

  unfoldable pub header_entries : Scanner Tensors
  unfolding header_loop
  header_entries input = header_loop (suc (length input)) [] input

  unfoldable pub parse_header : Scanner Tensors
  unfolding expect consume header_entries
  parse_header = do expect b'{'; closed ← consume b'}'; if closed then return [] else header_entries

-- The order of `std::pair`, and `std::sort`.
abbrev pub Range : Type 0
Range = ℕ × ℕ

unfoldable pub before : Range → Range → Bool
before x y = ltb x.0 y.0 || not (ltb y.0 x.0) && leb x.1 y.1

unfoldable pub insert : Range → List Range → List Range
unfolding before
insert x [] = x ∷ []
insert x (y ∷ ranges) = if before x y then x ∷ y ∷ ranges else y ∷ insert x ranges

unfoldable pub sort : List Range → List Range
unfolding insert
sort [] = []
sort (x ∷ ranges) = insert x (sort ranges)

-- The loop of `validate_tensor_ranges`: no range begins before the one in front of it ends.
unfoldable pub apart : List Range → Bool
apart [] = true
apart (x ∷ []) = true
apart (x ∷ y ∷ ranges) = if ltb y.0 x.1 then false else apart (y ∷ ranges)

abbrev pub range_of : List ℕ × TensorView → Range
range_of entry = (entry.1.data_offset_begin, entry.1.data_offset_end)

-- Whether `validate_tensor_ranges` returns.
unfoldable pub validate_tensor_ranges : Tensors → Bool
unfolding sort apart
validate_tensor_ranges tensors = apart (sort (map range_of tensors))

unfoldable pub header_size_of : List ℕ → ℕ
unfolding little_endian
header_size_of bytes = little_endian (take 8 bytes)

-- The fields of the map, with the tensors of the header.
abbrev pub map_of : List ℕ → Tensors → SafeTensorMap
map_of bytes tensors = record {
  mapped_data = bytes;
  file_size = length bytes;
  header_size = header_size_of bytes;
  data_start = wrap (8 + header_size_of bytes);
  tensors = tensors;
}

-- Behind the header: the ranges, and the map that is returned.
unfoldable pub checked_map : SafeTensorMap → Scanned SafeTensorMap
unfolding validate_tensor_ranges
checked_map m = if validate_tensor_ranges m.tensors then scanned m else fails

-- `load`, on the bytes of the mapped file. Where `8U + header_size` wraps and passes the test, the
-- source reads beyond the mapping: nothing is known of the result, as where fuel runs out.
unfoldable pub load : List ℕ → Scanned SafeTensorMap
unfolding header_size_of parse_header checked_map
load bytes =
    let file_size = length bytes in
    let header_size = header_size_of bytes in
    let data_start = wrap (8 + header_size) in
    if leb file_size 8
    then fails
    else if header_size == 0 || leb file_size data_start
    then fails
    else if ltb u64_max (8 + header_size)
    then exhausted
    else elim (parse_header data_start file_size (take header_size (drop 8 bytes))) [
      | exhausted ↦ exhausted
      | fails ↦ fails
      | scanned parsed ↦ checked_map (map_of bytes parsed.0)
    ]

-- `SafeTensorMap::at`.
unfoldable pub at_name : SafeTensorMap → List ℕ → Scanned TensorView
unfolding find_entry
at_name m name = elim (find_entry name m.tensors) [ none ↦ fails | some t ↦ scanned t ]
