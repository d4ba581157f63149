-- ===== src/Safetensors/Ends.antt =====
-- `load` returns or throws on every file: the loops of `parse_header` end.
use kraken_infer.Base.{
  ℕ, zero, suc, ◌+◌, ◌<◌, ◌≡◌, refl, ◌≢◌, Bool, true, false, ◌||◌, List, [], ◌∷◌, wrap, u64_max,
  ◌≤◌, leb, ltb, ◌==◌, if◌then◌else◌, length, take, drop, string_eq, is_empty, arith,
}
use kraken_infer.Json.Monad.{Scanned, Scanner, exhausted, scanned, fails, return, ◌>>=◌, ◌>>◌}
use kraken_infer.Json.Scanner.{expect, consume, parse_string, parse_uint_array}
use kraken_infer.Json.Ends.{
  Within, Within-mono, Within-bind, Within-if, Keeps, Shrinks, Keeps-Keeps, Shrinks-Keeps,
  Keeps-return, Keeps-fail, Keeps-if, Keeps-of_Shrinks, expect-Shrinks, consume-Keeps,
}
use kraken_infer.Json.Strings.{parse_string-Shrinks}
use kraken_infer.Json.Numbers.{parse_uint_array-Shrinks}
use kraken_infer.Json.Values.{skip_value-Within}
use kraken_infer.Gguf.File.{emplace}
use kraken_infer.Safetensors.Header.{
  TensorView, Tensors, SafeTensorMap, new_tensor, bf16_word, metadata_word, dtype_word, shape_word,
  data_offsets_word, skip_any, parse_dtype, parse_shape, place_range, place_offsets,
  parse_data_offsets, parse_member, members_loop, parse_members, has_byte_size, check_tensor,
  parse_tensor, parse_entry, header_loop, header_entries, parse_header, validate_tensor_ranges,
  checked_map, map_of, header_size_of, load, map_of,
}

skip_any-Keeps : Keeps skip_any
unfolding Keeps skip_any
skip_any-Keeps input = skip_value-Within (suc (length input)) input (omega arith)

parse_dtype-Keeps : (t : TensorView) → Keeps (parse_dtype t)
unfolding parse_dtype
parse_dtype-Keeps t =
    Keeps-Keeps parse_string _ (Keeps-of_Shrinks parse_string parse_string-Shrinks)
      (λ dtype. Keeps-if (string_eq dtype bf16_word) _ _ (Keeps-return _) (Keeps-fail TensorView))

array-Keeps : Keeps parse_uint_array
array-Keeps = Keeps-of_Shrinks parse_uint_array parse_uint_array-Shrinks

parse_shape-Keeps : (t : TensorView) → Keeps (parse_shape t)
unfolding parse_shape
parse_shape-Keeps t = Keeps-Keeps parse_uint_array _ array-Keeps (λ shape. Keeps-return _)

module _ (data_start file_size : ℕ) where
  place_offsets-Keeps :
      (t : TensorView) (offsets : List ℕ) → Keeps (place_offsets data_start file_size t offsets)
  unfolding place_offsets place_range
  place_offsets-Keeps t [] = Keeps-fail TensorView
  place_offsets-Keeps t (begin ∷ []) = Keeps-fail TensorView
  place_offsets-Keeps t (begin ∷ end ∷ []) = Keeps-if (ltb end begin) _ _ (Keeps-fail TensorView) (
      Keeps-if (ltb file_size (wrap (data_start + end))) _ _ (Keeps-fail TensorView)
        (Keeps-return _))
  place_offsets-Keeps t (begin ∷ end ∷ more ∷ offsets) = Keeps-fail TensorView

  parse_member-Keeps :
      (t : TensorView) (key : List ℕ) → Keeps (parse_member data_start file_size t key)
  unfolding parse_member parse_data_offsets
  parse_member-Keeps t key = Keeps-if (string_eq key dtype_word) _ _ (parse_dtype-Keeps t) (
      Keeps-if (string_eq key shape_word) _ _ (parse_shape-Keeps t) (
        Keeps-if (string_eq key data_offsets_word) _ _
          (Keeps-Keeps parse_uint_array _ array-Keeps (place_offsets-Keeps t))
          (Keeps-Keeps skip_any _ skip_any-Keeps (λ u. Keeps-return t))))

  -- A round of either loop: a name, a colon, what stands behind it, and the loop again or not.
  round-Within :
      {A : Type 0} (value : List ℕ → Scanner A) (again : A → Scanner A) (input : List ℕ)
      → ((name : List ℕ) → Keeps (value name))
      → ((a : A) (rest : List ℕ) → length rest < length input → Within (length rest) (again a rest))
      → Within (length input) (
          (parse_string >>= λ name.
          expect b':'
          >> (value name >>= λ a.
              consume b'}' >>= λ closed. if closed then return a else (expect b',' >> again a)))
            input)
  unfolding Keeps Shrinks
  round-Within value again input keeps ends =
      let k = length input in
      Within-bind k k parse_string _ input (parse_string-Shrinks input) (λ name r1 less1.
        Within-bind (length r1) k (expect b':') _ r1 (expect-Shrinks b':' r1) (λ u r2 less2.
          Within-bind (suc (length r2)) k (value name) _ r2 (keeps name r2) (λ a r3 less3.
            Within-bind (suc (length r3)) k (consume b'}') _ r3 (consume-Keeps b'}' r3)
              (λ closed r4 less4.
                Within-if closed (return a) (expect b',' >> again a) k r4 (omega arith) (
                  Within-bind (length r4) k (expect b',') _ r4 (expect-Shrinks b',' r4)
                    (λ v r5 less5.
                      Within-mono _ _ (again a r5) (omega arith) (ends a r5 (omega arith))))))))

  members_loop-Within :
      (fuel : ℕ) (t : TensorView) (input : List ℕ)
      → length input < fuel
      → Within (length input) (members_loop data_start file_size fuel t input)
  unfolding members_loop
  members_loop-Within zero t input enough = absurd (omega arith)
  members_loop-Within (suc fuel) t input enough =
      round-Within (parse_member data_start file_size t) (members_loop data_start file_size fuel)
        input (parse_member-Keeps t) (λ t rest less. members_loop-Within fuel t rest (omega arith))

  parse_members-Keeps : (t : TensorView) → Keeps (parse_members data_start file_size t)
  unfolding Keeps parse_members
  parse_members-Keeps t input =
      Within-mono _ _ (members_loop data_start file_size (suc (length input)) t input) (omega arith)
        (members_loop-Within (suc (length input)) t input (omega arith))

  check_tensor-Keeps : (t : TensorView) → Keeps (check_tensor data_start file_size t)
  unfolding check_tensor
  check_tensor-Keeps t =
      Keeps-if (is_empty t.dtype) _ _ (Keeps-fail TensorView) (
        Keeps-if (has_byte_size data_start file_size t) _ _ (Keeps-return t)
          (Keeps-fail TensorView))

  parse_entry-Keeps :
      (tensors : Tensors) (name : List ℕ) → Keeps (parse_entry data_start file_size tensors name)
  unfolding parse_entry parse_tensor
  parse_entry-Keeps tensors name =
      Keeps-if (string_eq name metadata_word) _ _
        (Keeps-Keeps skip_any _ skip_any-Keeps (λ u. Keeps-return tensors))
        (Keeps-Keeps (parse_tensor data_start file_size name) _
          (Keeps-Keeps (expect b'{') _ (Keeps-of_Shrinks (expect b'{') (expect-Shrinks b'{')) (λ u.
            Keeps-Keeps (parse_members data_start file_size (new_tensor name)) _
              (parse_members-Keeps (new_tensor name)) check_tensor-Keeps))
          (λ t. Keeps-return (emplace name t tensors)))

  header_loop-Within :
      (fuel : ℕ) (tensors : Tensors) (input : List ℕ)
      → length input < fuel
      → Within (length input) (header_loop data_start file_size fuel tensors input)
  unfolding header_loop
  header_loop-Within zero tensors input enough = absurd (omega arith)
  header_loop-Within (suc fuel) tensors input enough =
      round-Within (parse_entry data_start file_size tensors)
        (header_loop data_start file_size fuel) input (parse_entry-Keeps tensors)
        (λ tensors rest less. header_loop-Within fuel tensors rest (omega arith))

  header_entries-Keeps : Keeps (header_entries data_start file_size)
  unfolding Keeps header_entries
  header_entries-Keeps input =
      Within-mono _ _ (header_loop data_start file_size (suc (length input)) [] input) (omega arith)
        (header_loop-Within (suc (length input)) [] input (omega arith))

  pub parse_header-Shrinks : Shrinks (parse_header data_start file_size)
  unfolding parse_header
  parse_header-Shrinks = Shrinks-Keeps (expect b'{') _ (expect-Shrinks b'{') (λ u.
      Keeps-Keeps (consume b'}') _ (consume-Keeps b'}') (λ closed.
        Keeps-if closed (return []) (header_entries data_start file_size) (Keeps-return [])
          header_entries-Keeps))

if-ends :
    {A : Type 0} (b : Bool) (x y : Scanned A)
    → x ≢ exhausted
    → y ≢ exhausted
    → (if b then x else y) ≢ exhausted
if-ends true x y ex ey = ex
if-ends false x y ex ey = ey

fails-ends : {A : Type 0} (result : Scanned A) → result ≡ fails → result ≢ exhausted
fails-ends result fails_here e = cc

parsed-ends :
    {A B : Type 0} (n : ℕ) (result : Scanned (A × List ℕ)) (after : A → Scanned B)
    → Within n result
    → ((a : A) → after a ≢ exhausted)
    → elim result [ exhausted ↦ exhausted | fails ↦ fails | scanned r ↦ after r.0 ] ≢ exhausted
parsed-ends n exhausted after within ends = absurd within
parsed-ends n fails after within ends = (fails-ends fails refl)
parsed-ends n (scanned r) after within ends = ends r.0

checked_map-ends : (m : SafeTensorMap) → checked_map m ≢ exhausted
unfolding checked_map
checked_map-ends m =
    if-ends (validate_tensor_ranges m.tensors) (scanned m) fails (λ e. cc) (fails-ends fails refl)

-- `load` returns a map or throws, whatever the bytes of the file are: the loops of the header end. The
-- conditions: the end of the header does not wrap, so that the source reads inside the mapping, and
-- the call stack holds the nesting of the values that the header skips.
pub load_total : (bytes : List ℕ) → 8 + header_size_of bytes ≤ u64_max → load bytes ≢ exhausted
unfolding load Shrinks
load_total bytes inside =
    let file_size = length bytes in
    let data_start = wrap (8 + header_size_of bytes) in
    let header = take (header_size_of bytes) (drop 8 bytes) in
    let in_mapping : ltb u64_max (8 + header_size_of bytes) ≡ false = ground arith in
    if-ends (leb file_size 8) _ _ (fails-ends fails refl) (
      if-ends (header_size_of bytes == 0 || leb file_size data_start) _ _ (fails-ends fails refl) (
        rw in_mapping (
          parsed-ends (length header) (parse_header data_start file_size header)
            (λ tensors. checked_map (map_of bytes tensors))
            (parse_header-Shrinks data_start file_size header)
            (λ tensors. checked_map-ends (map_of bytes tensors)))))
