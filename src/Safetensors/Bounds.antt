-- ===== src/Safetensors/Bounds.antt =====
-- What the checks of `parse_header` and `load` establish of every tensor of the map.
use kraken_infer.Base.{
  ℕ, zero, suc, ◌+◌, ◌-◌, ◌*◌, ◌≤◌, ◌≡◌, refl, sym, ◌∙◌, ap, ◌⊎◌, inl, inr, true, false, List, [],
  ◌∷◌, Option, none, some, All, wrap, u64_max, ltb, ◌==◌, length, ok, err, is_empty, string_eq,
  string_eq-eq, Outcome, ==_iff, arith,
}
use kraken_infer.Json.Scanner.{expect, consume, parse_string, parse_uint_array}
use kraken_infer.Gguf.Layout.{product}
use kraken_infer.Gguf.Sizes.{elements_of, product-elements_of}
use kraken_infer.Gguf.File.{find_entry, emplace}
use kraken_infer.Safetensors.Header.{
  TensorView, Tensors, new_tensor, bf16_word, metadata_word, dtype_word, shape_word,
  data_offsets_word, skip_any, parse_dtype, parse_shape, place_range, place_offsets,
  parse_data_offsets, parse_member, members_loop, parse_members, has_byte_size, check_tensor,
  parse_tensor, parse_entry, header_loop, header_entries, parse_header,
}
use kraken_infer.Safetensors.Yields.{
  Yields, Yields-return, Yields-fail, Yields-run_out, Yields-if, Yields-then, Yields-after,
}

-- A range that is in order and ends, in 64-bit words, inside the file, the pointer to it, and the
-- type, once they are read.
abbrev pub IsPlaced : ℕ → ℕ → List ℕ → TensorView → Type 0
IsPlaced data_start file_size name t =
    (t.name ≡ name)
    × ((t.dtype ≡ []) ⊎ (t.dtype ≡ bf16_word))
    × (t.data_offset_begin ≤ t.data_offset_end)
    × (t.byte_size ≡ t.data_offset_end - t.data_offset_begin)
    × (wrap (data_start + t.data_offset_end) ≤ file_size)
    × ((t.data_pointer ≡ none) ⊎ (t.data_pointer ≡ some (wrap (data_start + t.data_offset_begin))))

-- Behind the checks: the type is read, and the shape gives the size.
abbrev pub IsChecked : ℕ → ℕ → List ℕ → TensorView → Type 0
IsChecked data_start file_size name t =
    IsPlaced data_start file_size name t
    × (t.dtype ≡ bf16_word)
    × (wrap (elements_of t.shape * 2) ≡ t.byte_size)

module _ (data_start file_size : ℕ) (name : List ℕ) where
  parse_dtype-IsPlaced :
      (t : TensorView)
      → IsPlaced data_start file_size name t
      → Yields (IsPlaced data_start file_size name) (parse_dtype t)
  unfolding parse_dtype
  parse_dtype-IsPlaced t (n, _, o, s, f, g) =
      Yields-after (IsPlaced data_start file_size name) parse_string _ (λ dtype.
        Yields-if (IsPlaced data_start file_size name) (string_eq dtype bf16_word) _ _
          (λ same. Yields-return _ _ (n, inr (string_eq-eq dtype bf16_word same), o, s, f, g))
          (λ other. Yields-fail _))

  place_range-IsPlaced :
      (t : TensorView) (begin end : ℕ)
      → IsPlaced data_start file_size name t
      → Yields (IsPlaced data_start file_size name) (place_range data_start file_size t begin end)
  unfolding place_range
  place_range-IsPlaced t begin end (n, d, _, _, _, _) =
      Yields-if (IsPlaced data_start file_size name) (ltb end begin) _ _ (λ back. Yields-fail _)
        (λ forth.
          Yields-if (IsPlaced data_start file_size name) (ltb file_size (wrap (data_start + end))) _
            _ (λ over. Yields-fail _)
            (λ fits. Yields-return _ _ (n, d, ground arith, refl, ground arith, inr refl)))

  place_offsets-IsPlaced :
      (t : TensorView) (offsets : List ℕ)
      → IsPlaced data_start file_size name t
      → Yields (IsPlaced data_start file_size name) (place_offsets data_start file_size t offsets)
  unfolding place_offsets
  place_offsets-IsPlaced t [] p = Yields-fail _
  place_offsets-IsPlaced t (begin ∷ []) p = Yields-fail _
  place_offsets-IsPlaced t (begin ∷ end ∷ []) p = place_range-IsPlaced t begin end p
  place_offsets-IsPlaced t (begin ∷ end ∷ more ∷ offsets) p = Yields-fail _

  parse_member-IsPlaced :
      (t : TensorView) (key : List ℕ)
      → IsPlaced data_start file_size name t
      → Yields (IsPlaced data_start file_size name) (parse_member data_start file_size t key)
  unfolding parse_member parse_shape parse_data_offsets
  parse_member-IsPlaced t key p =
      let P = IsPlaced data_start file_size name in
      Yields-if P (string_eq key dtype_word) _ _ (λ _. parse_dtype-IsPlaced t p)
        (λ _.
          Yields-if P (string_eq key shape_word) _ _
            (λ _. Yields-after P parse_uint_array _ (λ shape. Yields-return P _ p))
            (λ _.
              Yields-if P (string_eq key data_offsets_word) _ _
                (λ _.
                  Yields-after P parse_uint_array _ (λ offsets. place_offsets-IsPlaced t offsets p))
                (λ _. Yields-after P skip_any _ (λ u. Yields-return P t p))))

  members_loop-IsPlaced :
      (fuel : ℕ) (t : TensorView)
      → IsPlaced data_start file_size name t
      → Yields (IsPlaced data_start file_size name) (members_loop data_start file_size fuel t)
  unfolding members_loop
  members_loop-IsPlaced zero t p = Yields-run_out _
  members_loop-IsPlaced (suc fuel) t p =
      let P = IsPlaced data_start file_size name in
      Yields-after P parse_string _ (λ key. Yields-after P (expect b':') _ (λ u.
        Yields-then P P (parse_member data_start file_size t key) _ (parse_member-IsPlaced t key p)
          (λ t q. Yields-after P (consume b'}') _ (λ closed.
            Yields-if P closed _ _ (λ _. Yields-return P t q)
              (λ _. Yields-after P (expect b',') _ (λ v. members_loop-IsPlaced fuel t q))))))

  parse_members-IsPlaced :
      (t : TensorView)
      → IsPlaced data_start file_size name t
      → Yields (IsPlaced data_start file_size name) (parse_members data_start file_size t)
  unfolding Yields parse_members
  parse_members-IsPlaced t p input = members_loop-IsPlaced (suc (length input)) t p input

  typed :
      (dtype : List ℕ)
      → (dtype ≡ []) ⊎ (dtype ≡ bf16_word)
      → is_empty dtype ≡ false
      → dtype ≡ bf16_word
  typed dtype (inr e) full = e
  typed dtype (inl e) full = absurd (let f = rw e at full in cc)

  has_byte_size-elements_of :
      (t : TensorView)
      → has_byte_size data_start file_size t ≡ true
      → wrap (elements_of t.shape * 2) ≡ t.byte_size
  unfolding has_byte_size
  has_byte_size-elements_of t same = go (product t.shape) refl same
    where
      go :
          (result : Outcome ℕ)
          → product t.shape ≡ result
          → elim result [ err _ ↦ false | ok elements ↦ wrap (elements * 2) == t.byte_size ] ≡ true
          → wrap (elements_of t.shape * 2) ≡ t.byte_size
      go (err why) e same = absurd (cc)
      go (ok elements) e same =
          let (exact, _) = product-elements_of t.shape {n = elements} e in
          ap (λ n. wrap (n * 2)) (sym exact) ∙ (==_iff _ _).0 same

  check_tensor-IsChecked :
      (t : TensorView)
      → IsPlaced data_start file_size name t
      → Yields (IsChecked data_start file_size name) (check_tensor data_start file_size t)
  unfolding check_tensor
  check_tensor-IsChecked t (n, d, o, s, f, g) =
      let Q = IsChecked data_start file_size name in
      Yields-if Q (is_empty t.dtype) _ _ (λ _. Yields-fail Q)
        (λ full.
          Yields-if Q (has_byte_size data_start file_size t) _ _
            (λ same.
              Yields-return Q t
                ((n, d, o, s, f, g), typed t.dtype d full, has_byte_size-elements_of t same))
            (λ _. Yields-fail Q))

  new_tensor-IsPlaced :
      data_start ≤ file_size
      → data_start ≤ u64_max
      → IsPlaced data_start file_size name (new_tensor name)
  new_tensor-IsPlaced inside word = (refl, inl refl, omega arith, refl, omega arith, inl refl)

  parse_tensor-IsChecked :
      data_start ≤ file_size
      → data_start ≤ u64_max
      → Yields (IsChecked data_start file_size name) (parse_tensor data_start file_size name)
  unfolding parse_tensor
  parse_tensor-IsChecked inside word =
      let Q = IsChecked data_start file_size name in
      Yields-after Q (expect b'{') _ (λ u.
        Yields-then (IsPlaced data_start file_size name) Q
          (parse_members data_start file_size (new_tensor name)) _
          (parse_members-IsPlaced (new_tensor name) (new_tensor-IsPlaced inside word))
          check_tensor-IsChecked)

-- Every entry of the map is checked, and stands under its tensor's name.
abbrev pub AllChecked : ℕ → ℕ → Tensors → Type 0
AllChecked data_start file_size tensors =
    All (λ entry. IsChecked data_start file_size entry.0 entry.1) tensors

module _ (data_start file_size : ℕ) (inside : data_start ≤ file_size)
    (word : data_start ≤ u64_max) where
  emplace-AllChecked :
      (name : List ℕ) (t : TensorView) (tensors : Tensors)
      → IsChecked data_start file_size name t
      → (AllChecked data_start file_size) tensors
      → (AllChecked data_start file_size) (emplace name t tensors)
  unfolding emplace
  emplace-AllChecked name t tensors checked all = go (find_entry name tensors)
    where
      go :
          (found : Option TensorView)
          → (AllChecked data_start file_size)
              (elim found [ none ↦ (name, t) ∷ tensors | some _ ↦ tensors ])
      go none = (checked, all)
      go (some _) = all

  parse_entry-AllChecked :
      (tensors : Tensors) (name : List ℕ)
      → (AllChecked data_start file_size) tensors
      → Yields (AllChecked data_start file_size) (parse_entry data_start file_size tensors name)
  unfolding parse_entry
  parse_entry-AllChecked tensors name all =
      Yields-if (AllChecked data_start file_size) (string_eq name metadata_word) _ _
        (λ _.
          Yields-after (AllChecked data_start file_size) skip_any _
            (λ u. Yields-return (AllChecked data_start file_size) tensors all))
        (λ _.
          Yields-then (IsChecked data_start file_size name) (AllChecked data_start file_size)
            (parse_tensor data_start file_size name) _
            (parse_tensor-IsChecked data_start file_size name inside word)
            (λ t checked.
              Yields-return (AllChecked data_start file_size) _
                (emplace-AllChecked name t tensors checked all)))

  header_loop-AllChecked :
      (fuel : ℕ) (tensors : Tensors)
      → (AllChecked data_start file_size) tensors
      → Yields (AllChecked data_start file_size) (header_loop data_start file_size fuel tensors)
  unfolding header_loop
  header_loop-AllChecked zero tensors all = Yields-run_out (AllChecked data_start file_size)
  header_loop-AllChecked (suc fuel) tensors all =
      Yields-after (AllChecked data_start file_size) parse_string _ (λ name.
        Yields-after (AllChecked data_start file_size) (expect b':') _ (λ u.
          Yields-then (AllChecked data_start file_size) (AllChecked data_start file_size)
            (parse_entry data_start file_size tensors name) _
            (parse_entry-AllChecked tensors name all)
            (λ tensors all.
              Yields-after (AllChecked data_start file_size) (consume b'}') _ (λ closed.
                Yields-if (AllChecked data_start file_size) closed _ _
                  (λ _. Yields-return (AllChecked data_start file_size) tensors all)
                  (λ _.
                    Yields-after (AllChecked data_start file_size) (expect b',') _
                      (λ v. header_loop-AllChecked fuel tensors all))))))

  pub parse_header-AllChecked :
      Yields (AllChecked data_start file_size) (parse_header data_start file_size)
  unfolding Yields parse_header header_entries
  parse_header-AllChecked = Yields-after (AllChecked data_start file_size) (expect b'{') _ (λ u.
      Yields-after (AllChecked data_start file_size) (consume b'}') _ (λ closed.
        Yields-if (AllChecked data_start file_size) closed _ _
          (λ _. Yields-return (AllChecked data_start file_size) [] tt)
          (λ _ input. header_loop-AllChecked (suc (length input)) [] tt input)))
