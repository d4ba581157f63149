-- ===== src/Gguf/Get.antt =====
-- The typed reads of metadata: `gguf_get_string` and its siblings.
use kraken_infer.Base.{
  ℕ, ◌-◌, ◌^◌, Bool, List, [], ◌∷◌, ℤ, pos, none, some, ltb, if◌then◌else◌, length, Outcome, ok,
  err, invalid_argument, ◌>>=◌,
}
use kraken_infer.Gguf.Value.{
  Variant, unsigned, signed, real, flag, text, unsigneds, signeds, reals, flags, texts,
}
use kraken_infer.Gguf.File.{GgufFile, find_gguf_metadata}

-- `std::numeric_limits<std::int64_t>::max()`.
abbrev pub i64_max : ℕ
i64_max = 2 ^ 63 - 1

-- The conversions of `gguf_get_i64`.
unfoldable pub to_i64 : ℕ → Outcome ℤ
to_i64 n = if ltb i64_max n then err invalid_argument else ok (pos n)

-- The loop of `gguf_get_i64_array`.
unfoldable pub to_i64_array : List ℕ → Outcome (List ℤ)
unfolding to_i64
to_i64_array [] = ok []
to_i64_array (n ∷ ns) = do i ← to_i64 n; is ← to_i64_array ns; ok (i ∷ is)

module _ {Real : Type 0} where
  unfoldable pub string_of : Variant Real → Outcome (List ℕ)
  string_of (text s) = ok s
  string_of _ = err invalid_argument

  unfoldable pub i64_of : Variant Real → Outcome ℤ
  unfolding to_i64
  i64_of (signed i) = ok i
  i64_of (unsigned n) = to_i64 n
  i64_of _ = err invalid_argument

  unfoldable pub bool_of : Variant Real → Outcome Bool
  bool_of (flag b) = ok b
  bool_of _ = err invalid_argument

  unfoldable pub i64_array_of : Variant Real → Outcome (List ℤ)
  unfolding to_i64_array
  i64_array_of (signeds is) = ok is
  i64_array_of (unsigneds ns) = to_i64_array ns
  i64_array_of _ = err invalid_argument

  unfoldable pub array_size_of : Variant Real → Outcome ℕ
  array_size_of (unsigneds xs) = ok (length xs)
  array_size_of (signeds xs) = ok (length xs)
  array_size_of (reals xs) = ok (length xs)
  array_size_of (flags xs) = ok (length xs)
  array_size_of (texts xs) = ok (length xs)
  array_size_of _ = err invalid_argument

  -- `static_cast<double>` of an integer belongs to the hardware.
  unfoldable pub f64_of : (ℤ → Real) → Variant Real → Outcome Real
  f64_of from_integer (real x) = ok x
  f64_of from_integer (signed i) = ok (from_integer i)
  f64_of from_integer (unsigned n) = ok (from_integer (pos n))
  f64_of from_integer _ = err invalid_argument

  -- A missing key is an error in each of them.
  unfoldable pub get_by :
      {A : Type 0} → (Variant Real → Outcome A) → GgufFile Real → List ℕ → Outcome A
  unfolding find_gguf_metadata
  get_by read file key = elim (find_gguf_metadata file key) [
    | none ↦ err invalid_argument
    | some v ↦ read v.value
  ]

  unfoldable pub gguf_get_string : GgufFile Real → List ℕ → Outcome (List ℕ)
  unfolding get_by string_of
  gguf_get_string file key = get_by string_of file key

  unfoldable pub gguf_get_i64 : GgufFile Real → List ℕ → Outcome ℤ
  unfolding get_by i64_of
  gguf_get_i64 file key = get_by i64_of file key

  unfoldable pub gguf_get_f64 : (ℤ → Real) → GgufFile Real → List ℕ → Outcome Real
  unfolding get_by f64_of
  gguf_get_f64 from_integer file key = get_by (f64_of from_integer) file key

  unfoldable pub gguf_get_bool : GgufFile Real → List ℕ → Outcome Bool
  unfolding get_by bool_of
  gguf_get_bool file key = get_by bool_of file key

  unfoldable pub gguf_get_i64_array : GgufFile Real → List ℕ → Outcome (List ℤ)
  unfolding get_by i64_array_of
  gguf_get_i64_array file key = get_by i64_array_of file key

  unfoldable pub gguf_get_array_size : GgufFile Real → List ℕ → Outcome ℕ
  unfolding get_by array_size_of
  gguf_get_array_size file key = get_by array_size_of file key
