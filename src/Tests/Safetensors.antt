-- ===== src/Tests/Safetensors.antt =====
-- Runs of the safetensors reader.
use kraken_infer.Base.{
  none, ◌⊎◌, ℕ, List, [], ◌∷◌, ◌≡◌, ◌≢◌, ◌↔◌, ◌≤◌, ◌+◌, ◌*◌, refl, true, some, map, length, wrap,
  arith,
}
use kraken_infer.Json.Monad.{scanned, exhausted}
use kraken_infer.Gguf.File.{find_entry}
use kraken_infer.Safetensors.Header.{
  TensorView, Tensors, SafeTensorMap, bf16_word, header_size_of, validate_tensor_ranges, load,
  at_name, range_of,
}
use kraken_infer.Gguf.Sizes.{elements_of}
use kraken_infer.Safetensors.Ends.{load_total}
use kraken_infer.Safetensors.Ranges.{Separate, validate_tensor_ranges_iff}
use kraken_infer.Safetensors.Load.{load-Separate, load-at_name}

-- `{"t":{"dtype":"BF16","shape":[1],"data_offsets":[0,2]}}`, behind its length and in front of two bytes.
abbrev one_tensor : List ℕ
one_tensor =
    55 ∷ 0 ∷ 0 ∷ 0 ∷ 0 ∷ 0 ∷ 0 ∷ 0 ∷ b'{' ∷ b'"' ∷ b't' ∷ b'"' ∷ b':' ∷ b'{' ∷ b'"' ∷ b'd' ∷ b't'
    ∷ b'y' ∷ b'p' ∷ b'e' ∷ b'"' ∷ b':' ∷ b'"' ∷ b'B' ∷ b'F' ∷ b'1' ∷ b'6' ∷ b'"' ∷ b',' ∷ b'"'
    ∷ b's' ∷ b'h' ∷ b'a' ∷ b'p' ∷ b'e' ∷ b'"' ∷ b':' ∷ b'[' ∷ b'1' ∷ b']' ∷ b',' ∷ b'"' ∷ b'd'
    ∷ b'a' ∷ b't' ∷ b'a' ∷ b'_' ∷ b'o' ∷ b'f' ∷ b'f' ∷ b's' ∷ b'e' ∷ b't' ∷ b's' ∷ b'"' ∷ b':'
    ∷ b'[' ∷ b'0' ∷ b',' ∷ b'2' ∷ b']' ∷ b'}' ∷ b'}' ∷ 128 ∷ 63 ∷ []

one_length : length one_tensor ≡ 65
one_length = refl

abbrev one_view : TensorView
one_view = record {
  name = b't' ∷ [];
  dtype = b'B' ∷ b'F' ∷ b'1' ∷ b'6' ∷ [];
  shape = 1 ∷ [];
  data_pointer = some 63;
  data_offset_begin = 0;
  data_offset_end = 2;
  byte_size = 2;
}

abbrev one_map : SafeTensorMap
one_map = record {
  mapped_data = one_tensor;
  file_size = 65;
  header_size = 55;
  data_start = 63;
  tensors = (b't' ∷ [], one_view) ∷ [];
}

one_loaded : load one_tensor ≡ scanned one_map
unfolding load find_entry
one_loaded = refl

one_found : at_name one_map (b't' ∷ []) ≡ scanned one_view
unfolding at_name
one_found = refl

abbrev two_ranges : Tensors
two_ranges =
    (b'b' ∷ [], record one_view { data_offset_begin = 2; data_offset_end = 4 })
    ∷ (b't' ∷ [], one_view)
    ∷ []

validate_tensor_ranges_iff_example :
    (validate_tensor_ranges two_ranges ≡ true) ↔ Separate (map range_of two_ranges)
validate_tensor_ranges_iff_example =
    validate_tensor_ranges_iff two_ranges (omega arith, (omega arith, tt))

load-Separate_example : Separate (map range_of one_map.tensors)
load-Separate_example = load-Separate one_tensor {m = one_map} one_loaded

header_size : header_size_of one_tensor ≡ 55
unfolding header_size_of
header_size = refl

load_total_example : load one_tensor ≢ exhausted
load_total_example = load_total one_tensor (omega (arith, header_size))

load-at_name_example :
    (one_view.name ≡ b't' ∷ [])
    × (one_view.dtype ≡ bf16_word)
    × (wrap (elements_of one_view.shape * 2) ≡ one_view.byte_size)
    × (one_view.data_offset_begin + one_view.byte_size ≡ one_view.data_offset_end)
    × (8 + header_size_of one_tensor + one_view.data_offset_end ≤ length one_tensor)
    × ((one_view.data_pointer ≡ none)
        ⊎ (one_view.data_pointer
            ≡ some (8 + header_size_of one_tensor + one_view.data_offset_begin)))
load-at_name_example =
    load-at_name one_tensor (b't' ∷ []) {m = one_map} {t = one_view} one_loaded one_found
      (omega (arith, header_size)) (omega (arith, header_size))
