-- ===== src/Gguf/Layout.antt =====
-- Alignment, shapes and the byte sizes of tensor types.
use kraken_infer.Base.{
  ℕ, ◌+◌, ◌-◌, ◌*◌, ◌/◌, ◌%◌, Bool, not, ◌||◌, List, [], ◌∷◌, wrap, u64_max, product_exceeds, ltb,
  leb, ◌==◌, if◌then◌else◌, Outcome, ok, err, runtime_error, ◌>>=◌,
}

unfoldable pub align_up : ℕ → ℕ → Outcome ℕ
align_up value alignment =
    let remainder = value % alignment in
    let delta = alignment - remainder in
    if alignment == 0
    then err runtime_error
    else if remainder == 0
    then ok value
    else if ltb (u64_max - delta) value
    then err runtime_error
    else ok (wrap (value + delta))

-- The loop of `product`.
unfoldable pub product_loop : ℕ → List ℕ → Outcome ℕ
product_loop result [] = ok result
product_loop result (dim ∷ shape) =
    let rest = product_loop (wrap (result * dim)) shape in
    if product_exceeds result dim then err runtime_error else rest

unfoldable pub product : List ℕ → Outcome ℕ
unfolding product_loop
product shape = product_loop 1 shape

pub record TypeLayout : Type 0 where
  pub block_size : ℕ
  pub type_size : ℕ

abbrev layout_of : ℕ → ℕ → ℕ → ℕ × TypeLayout
layout_of type block_size type_size =
    (type, record { block_size = block_size; type_size = type_size })

-- The cases of the switch, of which a type is listed at most once.
unfoldable pub type_layouts : List (ℕ × TypeLayout)
type_layouts =
    layout_of 0 1 4
    ∷ layout_of 1 1 2
    ∷ layout_of 2 32 18
    ∷ layout_of 3 32 20
    ∷ layout_of 6 32 22
    ∷ layout_of 7 32 24
    ∷ layout_of 8 32 34
    ∷ layout_of 9 32 36
    ∷ layout_of 10 256 84
    ∷ layout_of 11 256 110
    ∷ layout_of 12 256 144
    ∷ layout_of 13 256 176
    ∷ layout_of 14 256 210
    ∷ layout_of 15 256 292
    ∷ layout_of 16 256 66
    ∷ layout_of 17 256 74
    ∷ layout_of 18 256 98
    ∷ layout_of 19 256 50
    ∷ layout_of 20 32 18
    ∷ layout_of 21 256 110
    ∷ layout_of 22 256 82
    ∷ layout_of 23 256 136
    ∷ layout_of 24 1 1
    ∷ layout_of 25 1 2
    ∷ layout_of 26 1 4
    ∷ layout_of 27 1 8
    ∷ layout_of 28 1 8
    ∷ layout_of 29 256 56
    ∷ layout_of 30 1 2
    ∷ layout_of 34 256 54
    ∷ layout_of 35 256 66
    ∷ layout_of 39 32 17
    ∷ layout_of 40 64 36
    ∷ layout_of 41 128 18
    ∷ []

unfoldable pub find_layout : ℕ → List (ℕ × TypeLayout) → Outcome TypeLayout
find_layout type [] = err runtime_error
find_layout type ((t, layout) ∷ rows) = if t == type then ok layout else find_layout type rows

unfoldable pub ggml_type_layout : ℕ → Outcome TypeLayout
unfolding type_layouts find_layout
ggml_type_layout type = find_layout type type_layouts

unfoldable pub has_exact_layout : ℕ → Bool
has_exact_layout type =
    leb type 30 || type == 34 || type == 35 || type == 39 || type == 40 || type == 41

-- The bytes of a tensor of `elements` elements in this layout.
unfoldable pub layout_nbytes : ℕ → TypeLayout → Outcome ℕ
layout_nbytes elements layout =
    let blocks = elements / layout.block_size in
    if not (elements % layout.block_size == 0)
    then err runtime_error
    else if ltb (u64_max / layout.type_size) blocks
    then err runtime_error
    else ok (wrap (blocks * layout.type_size))

-- `tensor_nbytes` on the tensor's shape and type.
unfoldable pub tensor_nbytes : List ℕ → ℕ → Outcome ℕ
unfolding product ggml_type_layout has_exact_layout layout_nbytes
tensor_nbytes shape type = do
  elements ← product shape
  layout ← ggml_type_layout type
  let bytes = layout_nbytes elements layout
  if has_exact_layout type then bytes else ok 0
