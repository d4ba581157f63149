-- ===== src/Gguf/Bounds.antt =====
-- What a file that was read promises: every tensor lies inside it, with the bytes of its shape.
use kraken_infer.Base.{
  ℕ, zero, suc, ◌+◌, ◌-◌, ◌%◌, ◌≤◌, ◌≡◌, refl, ap, ◌∙◌, not, ◌&&◌, ◌||◌, List, [], ◌∷◌, All, length,
  wrap, wrap_lem, u64_max, ltb, ◌==◌, Outcome, ok, err, invalid_argument, guard, >>=-eq-ok,
  ok-injective, arith,
}
use mathlib.Core.Path.{subst}
use kraken_infer.Gguf.Reader.{Reader, read_pod, read_string}
use kraken_infer.Gguf.Value.{MetadataValue, read_items, read_value}
use kraken_infer.Gguf.Layout.{align_up, tensor_nbytes}
use kraken_infer.Gguf.File.{
  TensorInfo, GgufFile, gguf_magic, read_tensor, read_metadata, read_entries, read_gguf_file,
  catch_exception, place_tensor, place_tensors, place_file, emplace,
}
use kraken_infer.Gguf.Moves.{
  Safe, Safe-ok, Safe-bind, Safe-check, read_pod-Safe, read_string-Safe, read_items-Safe,
  read_value-Safe,
}
use kraken_infer.Gguf.Sizes.{align_up-least}
use kraken_infer.Gguf.Yields.{
  read_items-All, Yields, Yields-ok, Yields-bind, Yields-check, Yields-with,
}

-- The tensor's byte size is the one that its shape and type have.
abbrev pub IsSized : TensorInfo → Type 0
IsSized t = tensor_nbytes t.shape t.type ≡ ok t.byte_size

abbrev entry : List ℕ → List ℕ → ℕ → ℕ → ℕ → TensorInfo
entry name shape type offset byte_size = record {
  name = name;
  shape = shape;
  type = type;
  offset = offset;
  absolute_offset = 0;
  byte_size = byte_size;
}

read_tensor-IsSized : Yields IsSized read_tensor
unfolding read_tensor
read_tensor-IsSized = Yields-bind IsSized read_string _ (λ name.
    Yields-bind IsSized (read_pod 4) _ (λ n_dims.
      Yields-check IsSized (guard (not (n_dims == 0 || ltb 4 n_dims)) invalid_argument) _
        (λ u checked. Yields-bind IsSized (read_items (read_pod 8) n_dims) _ (λ shape.
          Yields-bind IsSized (read_pod 4) _ (λ type. Yields-bind IsSized (read_pod 8) _ (λ offset.
            Yields-check IsSized (tensor_nbytes shape type)
              (λ n r. ok (entry name shape type offset n, r))
              (λ n sized. Yields-ok IsSized (entry name shape type offset n) sized)))))))

read_tensor-Safe : Safe read_tensor
unfolding read_tensor
read_tensor-Safe = Safe-bind read_string _ read_string-Safe (λ name.
    Safe-bind (read_pod 4) _ (read_pod-Safe 4) (λ n_dims.
      Safe-check (guard _ invalid_argument) _ (λ u.
        Safe-bind (read_items (read_pod 8) n_dims) _
          (read_items-Safe (read_pod 8) n_dims (read_pod-Safe 8))
          (λ shape. Safe-bind (read_pod 4) _ (read_pod-Safe 4) (λ type.
            Safe-bind (read_pod 8) _ (read_pod-Safe 8) (λ offset.
              Safe-check (tensor_nbytes shape type) (λ n r. ok (_, r)) (λ n. Safe-ok _)))))))

catch_exception-eq-ok : {A : Type 0} (m : Outcome A) {a : A} → catch_exception m ≡ ok a → m ≡ ok a
unfolding catch_exception
catch_exception-eq-ok (ok a) e = e
catch_exception-eq-ok (err why) e = absurd (cc)

-- The tensor has its place in the file: its offset counts from the data, and its bytes lie inside.
pub record IsPlaced (file_size data_offset : ℕ) (t : TensorInfo) : Type 0 where
  pub placed : t.absolute_offset ≡ data_offset + t.offset
  pub inside : t.absolute_offset + t.byte_size ≤ file_size

abbrev pub IsGood : ℕ → ℕ → TensorInfo → Type 0
IsGood file_size data_offset t = IsSized t × IsPlaced file_size data_offset t

place_tensor-IsGood :
    (file_size data_offset : ℕ) (t t' : TensorInfo)
    → file_size ≤ u64_max
    → data_offset ≤ file_size
    → IsSized t
    → place_tensor file_size data_offset t ≡ ok t'
    → IsGood file_size data_offset t'
unfolding place_tensor
place_tensor-IsGood file_size data_offset t t' small inside sized e =
    let (u, checked, rest) =
      >>=-eq-ok (guard (not (ltb (file_size - data_offset) t.offset)) invalid_argument) _ e in
    let offset_fits : data_offset + t.offset ≤ file_size = ground arith in
    let exact = wrap_lem (data_offset + t.offset) (omega arith) in
    let (v, ranged, last) =
      >>=-eq-ok
        (guard
          (not
            (not (t.byte_size == 0) && ltb (file_size - wrap (data_offset + t.offset)) t.byte_size))
          invalid_argument)
        _ rest in
    subst (IsGood file_size data_offset) (ok-injective last)
      (sized, record { placed = exact; inside = ground arith })

place_tensors-IsGood :
    (file_size data_offset : ℕ) (tensors placed : List TensorInfo)
    → file_size ≤ u64_max
    → data_offset ≤ file_size
    → All IsSized tensors
    → place_tensors file_size data_offset tensors ≡ ok placed
    → All (IsGood file_size data_offset) placed × (length placed ≡ length tensors)
unfolding place_tensors
place_tensors-IsGood file_size data_offset [] placed small inside sized e =
    subst (λ ts. All (IsGood file_size data_offset) ts × (length ts ≡ 0)) (ok-injective e)
      (tt, refl)
place_tensors-IsGood file_size data_offset (t ∷ tensors) placed small inside sized e =
    let (t', first, rest) = >>=-eq-ok (place_tensor file_size data_offset t) _ e in
    let (ts, others, last) = >>=-eq-ok (place_tensors file_size data_offset tensors) _ rest in
    let (all, size) =
      place_tensors-IsGood file_size data_offset tensors ts small inside sized.1 others in
    subst (λ us. All (IsGood file_size data_offset) us × (length us ≡ suc (length tensors)))
      (ok-injective last)
      (
        (place_tensor-IsGood file_size data_offset t t' small inside sized.0 first, all),
        ap suc size,
      )

module _ {Real : Type 0} where
  -- What the entries say before the tensors are placed.
  abbrev IsListed : ℕ → GgufFile Real → Type 0
  IsListed size file =
      (file.file_size ≡ size) × (length file.tensors ≡ file.tensor_count) × All IsSized file.tensors

  -- What `read_gguf_file` promises of the file that it returns.
  pub record IsWholeFile (bytes : List ℕ) (file : GgufFile Real) : Type 0 where
    pub size : file.file_size ≡ length bytes
    pub count : length file.tensors ≡ file.tensor_count
    pub aligned : file.data_offset % file.alignment ≡ 0
    pub data_inside : file.data_offset ≤ length bytes
    pub tensors_inside : All (IsGood (length bytes) file.data_offset) file.tensors

module _ {Real : Type 0} (float_value double_value : ℕ → Real) where
  read_metadata-Safe :
      (count : ℕ) (entries : List (List ℕ × MetadataValue Real))
      → Safe (read_metadata float_value double_value count entries)
  unfolding read_metadata
  read_metadata-Safe zero entries = Safe-ok entries
  read_metadata-Safe (suc count) entries = Safe-bind read_string _ read_string-Safe (λ key.
      Safe-bind (read_value float_value double_value)
        (λ value r. read_metadata float_value double_value count (emplace key value entries) r)
        (read_value-Safe float_value double_value)
        (λ value. read_metadata-Safe count (emplace key value entries)))

  read_entries-IsListed :
      (r : Reader) (file : GgufFile Real) (r' : Reader)
      → read_entries float_value double_value r ≡ ok (file, r')
      → IsListed (length r.bytes) file
  unfolding read_entries
  read_entries-IsListed r =
      let P = IsListed (length r.bytes) in
      Yields-bind P (read_pod 4) _
        (λ magic. Yields-check P (guard (magic == gguf_magic) invalid_argument) _ (λ u checked.
          Yields-bind P (read_pod 4) _ (λ version.
            Yields-check P (guard (not (ltb version 2 || ltb 3 version)) invalid_argument) _
              (λ v supported. Yields-bind P (read_pod 8) _ (λ tensor_count.
                Yields-bind P (read_pod 8) _ (λ metadata_count.
                  Yields-bind P (read_metadata float_value double_value metadata_count []) _
                    (λ metadata.
                      Yields-with P
                        (λ tensors. All IsSized tensors × (length tensors ≡ tensor_count))
                        (read_items read_tensor tensor_count) (λ tensors r. ok (_, r))
                        (read_items-All IsSized read_tensor read_tensor-IsSized tensor_count)
                        (λ tensors listed. Yields-ok P _ (refl, listed.1, listed.0)))))))))
        r

  read_entries-Safe : Safe (read_entries float_value double_value)
  unfolding read_entries
  read_entries-Safe r =
      Safe-bind (read_pod 4) _ (read_pod-Safe 4)
        (λ magic. Safe-check (guard (magic == gguf_magic) invalid_argument) _ (λ u.
          Safe-bind (read_pod 4) _ (read_pod-Safe 4) (λ version.
            Safe-check (guard (not (ltb version 2 || ltb 3 version)) invalid_argument) _ (λ v.
              Safe-bind (read_pod 8) _ (read_pod-Safe 8) (λ tensor_count.
                Safe-bind (read_pod 8) _ (read_pod-Safe 8) (λ metadata_count.
                  Safe-bind (read_metadata float_value double_value metadata_count []) _
                    (read_metadata-Safe metadata_count [])
                    (λ metadata.
                      Safe-bind (read_items read_tensor tensor_count) (λ tensors r. ok (_, r))
                        (read_items-Safe read_tensor tensor_count read_tensor-Safe)
                        (λ tensors. Safe-ok _))))))))
        r

  place_file-IsWholeFile :
      (bytes : List ℕ) (position : ℕ) (file placed : GgufFile Real)
      → length bytes ≤ u64_max
      → position ≤ length bytes
      → IsListed (length bytes) file
      → place_file position file ≡ ok placed
      → IsWholeFile bytes placed
  unfolding place_file
  place_file-IsWholeFile bytes position file placed small inside (size, count, sized) e =
      let (data_offset, up, rest) = >>=-eq-ok (align_up position file.alignment) _ e in
      let (u, fits, rest2) =
        >>=-eq-ok (guard (not (ltb file.file_size data_offset)) invalid_argument) _ rest in
      let (tensors, set, last) =
        >>=-eq-ok (place_tensors file.file_size data_offset file.tensors) _ rest2 in
      let least = align_up-least position file.alignment {n = data_offset} (omega arith) up in
      let data_fits : data_offset ≤ file.file_size = ground arith in
      let (good, same) =
        place_tensors-IsGood file.file_size data_offset file.tensors tensors (omega arith) data_fits
          sized set in
      subst (IsWholeFile bytes) (ok-injective last) (record {
        size = size;
        count = same ∙ count;
        aligned = least.1;
        data_inside = omega arith;
        tensors_inside = rw size at good;
      })

  -- A file that `read_gguf_file` returns is as large as the bytes it was read from, lists as many
  -- tensors as it announces, and its data begins inside at a multiple of its alignment. Each tensor
  -- has the byte size of its shape and type, its offset counts from the data, and its bytes lie inside
  -- the file. The condition: the number of bytes fits `std::uint64_t`.
  pub read_gguf_file-IsWholeFile :
      (bytes : List ℕ) (file : GgufFile Real)
      → length bytes ≤ u64_max
      → read_gguf_file float_value double_value bytes ≡ ok file
      → IsWholeFile bytes file
  unfolding read_gguf_file
  read_gguf_file-IsWholeFile bytes file small e =
      let start : Reader = record { bytes = bytes; position = 0 } in
      let ((listed, r), entries, placed) =
        >>=-eq-ok (read_entries float_value double_value start) _ (catch_exception-eq-ok _ e) in
      let moved =
        read_entries-Safe start listed r (record { small = small; inside = omega arith }) entries in
      place_file-IsWholeFile bytes r.position listed file small moved.inside
        (read_entries-IsListed start listed r entries) placed
