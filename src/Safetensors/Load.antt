-- ===== src/Safetensors/Load.antt =====
-- `load` and `at`: where the tensors of a loaded map lie in the file.
use kraken_infer.Base.{
  ℕ, ap, ◌∙◌, ◌⊎◌, ◌+◌, ◌*◌, ◌≤◌, ◌≡◌, refl, inl, inr, Bool, true, false, ◌||◌, List, [], ◌∷◌,
  Option, none, some, map, All, wrap, u64_max, ltb, leb, ◌==◌, if◌then◌else◌, length, take, drop,
  string_eq, string_eq-eq, Bool-cases, arith,
}
use kraken_infer.Json.Monad.{Scanned, exhausted, scanned, fails}
use kraken_infer.Gguf.Sizes.{elements_of}
use kraken_infer.Gguf.File.{find_entry}
use kraken_infer.Safetensors.Header.{
  TensorView, Tensors, SafeTensorMap, bf16_word, range_of, parse_header, validate_tensor_ranges,
  checked_map, map_of, header_size_of, load, at_name,
}
use kraken_infer.Safetensors.Ranges.{Separate, IsOrdered, validate_tensor_ranges-Separate}
use kraken_infer.Safetensors.Yields.{Gives, Yields}
use kraken_infer.Safetensors.Bounds.{IsChecked, AllChecked, parse_header-AllChecked}

if-scanned :
    {A : Type 0} (b : Bool) (y : Scanned A) {m : A}
    → (if b then fails else y) ≡ scanned m
    → (b ≡ false) × (y ≡ scanned m)
if-scanned true y e = absurd (cc)
if-scanned false y e = (refl, e)

if-known :
    {A : Type 0} (b : Bool) (y : Scanned A) {m : A}
    → (if b then exhausted else y) ≡ scanned m
    → y ≡ scanned m
if-known true y e = absurd (cc)
if-known false y e = e

checked_map-scanned :
    (given m : SafeTensorMap)
    → checked_map given ≡ scanned m
    → (m ≡ given) × (validate_tensor_ranges given.tensors ≡ true)
unfolding checked_map
checked_map-scanned given m e = elim (Bool-cases (validate_tensor_ranges given.tensors)) [
  | inl valid ↦ let same = rw valid at e in ((cc), valid)
  | inr no_valid ↦ absurd (let f = rw no_valid at e in cc)
]

-- Such a map was built of tensors that passed every check.
abbrev IsBuiltOf : List ℕ → SafeTensorMap → Tensors → Type 0
IsBuiltOf bytes m tensors =
    (m ≡ map_of bytes tensors)
    × AllChecked (wrap (8 + header_size_of bytes)) (length bytes) tensors
    × (validate_tensor_ranges tensors ≡ true)
    × (wrap (8 + header_size_of bytes) ≤ length bytes)

parsed-IsBuiltOf :
    (bytes : List ℕ) (result : Scanned (Tensors × List ℕ)) {m : SafeTensorMap}
    → wrap (8 + header_size_of bytes) ≤ length bytes
    → Gives (AllChecked (wrap (8 + header_size_of bytes)) (length bytes)) result
    → elim result [
      | exhausted ↦ exhausted
      | fails ↦ fails
      | scanned r ↦ checked_map (map_of bytes r.0)
    ]
      ≡ scanned m
    → (tensors : Tensors) × IsBuiltOf bytes m tensors
parsed-IsBuiltOf bytes exhausted inside gives e = absurd (cc)
parsed-IsBuiltOf bytes fails inside gives e = absurd (cc)
parsed-IsBuiltOf bytes (scanned r) {m} inside gives e =
    let (same, valid) = checked_map-scanned (map_of bytes r.0) m e in
    (r.0, (same, gives, valid, inside))

load-IsBuiltOf :
    (bytes : List ℕ) {m : SafeTensorMap}
    → load bytes ≡ scanned m
    → (tensors : Tensors) × IsBuiltOf bytes m tensors
unfolding load Yields
load-IsBuiltOf bytes {m} e =
    let file_size = length bytes in
    let header_size = header_size_of bytes in
    let data_start = wrap (8 + header_size) in
    let header = take header_size (drop 8 bytes) in
    let (_, e) = if-scanned (leb file_size 8) _ {m = m} e in
    let (bounded, e) = if-scanned (header_size == 0 || leb file_size data_start) _ {m = m} e in
    let inside : data_start ≤ file_size = ground arith in
    let e = if-known (ltb u64_max (8 + header_size)) _ {m = m} e in
    parsed-IsBuiltOf bytes (parse_header data_start file_size header) {m = m} inside
      (parse_header-AllChecked data_start file_size inside (omega arith) header) e

-- The ranges of every two tensors of a map that `load` returns have no byte in common: one ends where
-- the other begins, or in front of it.
pub load-Separate :
    (bytes : List ℕ) {m : SafeTensorMap}
    → load bytes ≡ scanned m
    → Separate (map range_of m.tensors)
load-Separate bytes {m} e =
    let (tensors, (same, all, valid, _)) = load-IsBuiltOf bytes {m = m} e in
    rw same (validate_tensor_ranges-Separate tensors (ordered _ _ tensors all) valid)
  where
    ordered :
        (d f : ℕ) (tensors : Tensors)
        → AllChecked d f tensors
        → All IsOrdered (map range_of tensors)
    ordered d f [] all = tt
    ordered d f (entry ∷ tensors) (((_, _, o, _, _, _), _, _), all) = (o, ordered d f tensors all)

found-IsChecked :
    (d f : ℕ) (name : List ℕ) (tensors : Tensors) {t : TensorView}
    → AllChecked d f tensors
    → find_entry name tensors ≡ some t
    → IsChecked d f name t
unfolding find_entry
found-IsChecked d f name [] all e = absurd (cc)
found-IsChecked d f name ((k, v) ∷ tensors) {t} (checked, all) e =
    elim (Bool-cases (string_eq k name)) [
      | inl same ↦
          let here : v ≡ t = let f = rw same at e in cc in
          rw (← string_eq-eq k name same, ← here) checked
      | inr other ↦ found-IsChecked d f name tensors {t = t} all (rw other at e)
    ]

at_name-found :
    (m : SafeTensorMap) (name : List ℕ) {t : TensorView}
    → at_name m name ≡ scanned t
    → find_entry name m.tensors ≡ some t
unfolding at_name
at_name-found m name {t} e = go (find_entry name m.tensors) refl e
  where
    go :
        (found : Option TensorView)
        → find_entry name m.tensors ≡ found
        → elim found [ none ↦ fails | some v ↦ scanned v ] ≡ scanned t
        → find_entry name m.tensors ≡ some t
    go none f e = absurd (cc)
    go (some v) f e = cc

-- A place in front of an end that does not wrap does not wrap.
place_fits :
    (header begin end : ℕ)
    → begin ≤ end
    → 8 + header + end ≤ u64_max
    → wrap (wrap (8 + header) + begin) ≡ 8 + header + begin
place_fits header begin end le fits = omega arith

-- If `load` returns a map and `at` finds a tensor under a name, and neither the end of the header nor
-- the end of the tensor's range wraps, then the tensor has this name and the type `BF16`, its shape
-- gives its size in words of 64 bits, its size is the length of its range, the range ends inside the
-- file, and the tensor's pointer is null or points to the range's begin.
pub load-at_name :
    (bytes name : List ℕ) {m : SafeTensorMap} {t : TensorView}
    → load bytes ≡ scanned m
    → at_name m name ≡ scanned t
    → 8 + header_size_of bytes ≤ u64_max
    → 8 + header_size_of bytes + t.data_offset_end ≤ u64_max
    → (t.name ≡ name)
      × (t.dtype ≡ bf16_word)
      × (wrap (elements_of t.shape * 2) ≡ t.byte_size)
      × (t.data_offset_begin + t.byte_size ≡ t.data_offset_end)
      × (8 + header_size_of bytes + t.data_offset_end ≤ length bytes)
      × ((t.data_pointer ≡ none)
          ⊎ (t.data_pointer ≡ some (8 + header_size_of bytes + t.data_offset_begin)))
load-at_name bytes name {m} {t} e found header_fits range_fits =
    let (tensors, (same, all, valid, inside)) = load-IsBuiltOf bytes {m = m} e in
    let entry = at_name-found m name {t = t} found in
    let listed = rw same at entry in
    let ((n, _, o, s, f, g), typed, sized) = found-IsChecked _ _ name tensors {t = t} all listed in
    (
      n,
      typed,
      sized,
      omega (arith, s, o),
      omega (arith, f, range_fits, header_fits),
      elim g [
        | inl missing ↦ inl missing
        | inr placed ↦ inr (placed ∙ ap some (place_fits (header_size_of bytes) _ _ o range_fits))
      ],
    )
