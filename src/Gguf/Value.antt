-- ===== src/Gguf/Value.antt =====
-- Metadata values and how they are read. `double` is the type `Real`; how a bit pattern of a `float`
-- or a `double` is read belongs to the hardware, so the section takes it.
use kraken_infer.Base.{
  ℕ, zero, suc, Bool, List, [], ◌∷◌, ℤ, none, some, get_elem?, Outcome, ok, err, runtime_error,
  ◌>>=◌,
}
use kraken_infer.Gguf.Reader.{Reader, read_pod, read_signed, boolean, read_string}

pub data ValueKind : Type 0 where
  uint8 int8 uint16 int16 uint32 int32 float32 bool_value string array uint64 int64 float64 :
      ValueKind

-- The `std::variant` of a value.
pub data Variant (Real : Type 0) : Type 0 where
  unsigned : ℕ → Variant Real
  signed : ℤ → Variant Real
  real : Real → Variant Real
  flag : Bool → Variant Real
  text : List ℕ → Variant Real
  unsigneds : List ℕ → Variant Real
  signeds : List ℤ → Variant Real
  reals : List Real → Variant Real
  flags : List Bool → Variant Real
  texts : List (List ℕ) → Variant Real

pub record MetadataValue (Real : Type 0) : Type 0 where
  pub kind : ValueKind
  pub array_kind : ValueKind
  pub value : Variant Real

-- The kinds by their codes, the cases 0 to 12 of the switch.
abbrev pub value_kinds : List ValueKind
value_kinds =
    uint8 ∷ int8 ∷ uint16 ∷ int16 ∷ uint32 ∷ int32 ∷ float32 ∷ bool_value ∷ string ∷ array ∷ uint64
    ∷ int64 ∷ float64 ∷ []

unfoldable pub to_value_kind : ℕ → Outcome ValueKind
to_value_kind type = elim (get_elem? value_kinds type) [
  | none ↦ err runtime_error
  | some kind ↦ ok kind
]

-- A loop that pushes `count` items.
unfoldable pub read_items :
    {A : Type 0} → (Reader → Outcome (A × Reader)) → ℕ → Reader → Outcome (List A × Reader)
read_items item zero r = ok ([], r)
read_items item (suc count) r = do
  (x, r) ← item r
  (xs, r) ← read_items item count r
  ok (x ∷ xs, r)

module _ {Real : Type 0} where
  unfoldable pub map_read :
      {A : Type 0} → (A → Variant Real) → Outcome (A × Reader) → Outcome (Variant Real × Reader)
  map_read f m = do (x, r) ← m; ok (f x, r)

  -- `std::get` of a scalar that was just read: it throws on another alternative.
  unfoldable pub get_unsigned : Variant Real → Outcome ℕ
  get_unsigned (unsigned n) = ok n
  get_unsigned _ = err runtime_error

  unfoldable pub get_signed : Variant Real → Outcome ℤ
  get_signed (signed i) = ok i
  get_signed _ = err runtime_error

  unfoldable pub get_real : Variant Real → Outcome Real
  get_real (real x) = ok x
  get_real _ = err runtime_error

  unfoldable pub get_flag : Variant Real → Outcome Bool
  get_flag (flag b) = ok b
  get_flag _ = err runtime_error

  unfoldable pub get_text : Variant Real → Outcome (List ℕ)
  get_text (text s) = ok s
  get_text _ = err runtime_error

module _ {Real : Type 0} (float_value double_value : ℕ → Real) where
  -- The variant of `read_scalar_value`; its `kind` is the argument.
  unfoldable pub read_scalar : ValueKind → Reader → Outcome (Variant Real × Reader)
  unfolding map_read
  read_scalar uint8 r = map_read unsigned (read_pod 1 r)
  read_scalar int8 r = map_read signed (read_signed 1 r)
  read_scalar uint16 r = map_read unsigned (read_pod 2 r)
  read_scalar int16 r = map_read signed (read_signed 2 r)
  read_scalar uint32 r = map_read unsigned (read_pod 4 r)
  read_scalar int32 r = map_read signed (read_signed 4 r)
  read_scalar float32 r = map_read (λ n. real (float_value n)) (read_pod 4 r)
  read_scalar bool_value r = map_read flag (boolean r)
  read_scalar string r = map_read text (read_string r)
  read_scalar uint64 r = map_read unsigned (read_pod 8 r)
  read_scalar int64 r = map_read signed (read_signed 8 r)
  read_scalar float64 r = map_read (λ n. real (double_value n)) (read_pod 8 r)
  read_scalar array r = err runtime_error

  -- The body of an array's loop.
  unfoldable pub read_item :
      {A : Type 0} → (Variant Real → Outcome A) → ValueKind → Reader → Outcome (A × Reader)
  unfolding read_scalar
  read_item get kind r = do (v, r) ← read_scalar kind r; x ← get v; ok (x, r)

  unfoldable pub read_array :
      {A : Type 0}
      → (List A → Variant Real)
      → (Variant Real → Outcome A)
      → ValueKind
      → ℕ
      → Reader
      → Outcome (Variant Real × Reader)
  unfolding map_read read_items read_item
  read_array make get kind size r = map_read make (read_items (read_item get kind) size r)

  -- The switch on the kind of the elements.
  unfoldable pub read_elements : ValueKind → ℕ → Reader → Outcome (Variant Real × Reader)
  unfolding read_array get_unsigned get_signed get_real get_flag get_text
  read_elements uint8 size r = read_array unsigneds get_unsigned uint8 size r
  read_elements uint16 size r = read_array unsigneds get_unsigned uint16 size r
  read_elements uint32 size r = read_array unsigneds get_unsigned uint32 size r
  read_elements uint64 size r = read_array unsigneds get_unsigned uint64 size r
  read_elements int8 size r = read_array signeds get_signed int8 size r
  read_elements int16 size r = read_array signeds get_signed int16 size r
  read_elements int32 size r = read_array signeds get_signed int32 size r
  read_elements int64 size r = read_array signeds get_signed int64 size r
  read_elements float32 size r = read_array reals get_real float32 size r
  read_elements float64 size r = read_array reals get_real float64 size r
  read_elements bool_value size r = read_array flags get_flag bool_value size r
  read_elements string size r = read_array texts get_text string size r
  read_elements array size r = err runtime_error

  -- A kind that `is_array_element_kind` refuses is refused here.
  unfoldable pub read_array_value : ValueKind → Reader → Outcome (MetadataValue Real × Reader)
  unfolding read_elements
  read_array_value array r = err runtime_error
  read_array_value array_kind r = do
    (size, r) ← read_pod 8 r
    (value, r) ← read_elements array_kind size r
    ok (record { kind = array; array_kind = array_kind; value = value }, r)

  unfoldable pub read_kind : ValueKind → Reader → Outcome (MetadataValue Real × Reader)
  unfolding read_array_value read_scalar to_value_kind
  read_kind array r = do
    (code, r) ← read_pod 4 r
    array_kind ← to_value_kind code
    read_array_value array_kind r
  read_kind kind r = do
    (value, r) ← read_scalar kind r
    ok (record { kind = kind; array_kind = string; value = value }, r)

  unfoldable pub read_value : Reader → Outcome (MetadataValue Real × Reader)
  unfolding read_kind to_value_kind
  read_value r = do (code, r) ← read_pod 4 r; kind ← to_value_kind code; read_kind kind r
