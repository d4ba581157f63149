-- ===== src/Gguf/Sizes.antt =====
-- Alignment is the least multiple, and a tensor's bytes are exactly those of its blocks.
use kraken_infer.Base.{
  ℕ, suc, ◌+◌, ◌-◌, ◌*◌, ◌/◌, ◌%◌, ◌≤◌, ◌<◌, ◌≡◌, refl, sym, ◌∙◌, inl, inr, Bool, true, ◌&&◌, List,
  [], ◌∷◌, wrap, wrap_lem, u64_max, product_exceeds, mul-le-u64_max, ltb, ◌==◌, ==_iff, Bool-cases,
  and-left, and-right, ok, >>=-eq-ok, ok-injective, arith,
}
use native.Mathlib.Nat.{le-div_iff_mul-le, mul_assoc, div-add-mod', mod-lt, mul-mod_left, one-mul}
use kraken_infer.Gguf.Layout.{
  align_up, product_loop, product, TypeLayout, type_layouts, find_layout, ggml_type_layout,
  has_exact_layout, layout_nbytes, tensor_nbytes,
}

next_multiple : (v a : ℕ) → 0 < a → 0 < v % a → (v + (a - v % a)) % a ≡ 0
next_multiple v a h k =
    let split = div-add-mod' v a in
    let below = mod-lt v h in
    let whole : v + (a - v % a) ≡ suc (v / a) * a = omega arith in
    rw whole (mul-mod_left (suc (v / a)) a)

-- Where `align_up` returns for an offset that fits `std::uint64_t`, the alignment is not zero and the
-- result is the least multiple of it that is not below the offset, and fits.
pub align_up-least :
    (value alignment : ℕ) {n : ℕ}
    → value ≤ u64_max
    → align_up value alignment ≡ ok n
    → (0 < alignment) × (n % alignment ≡ 0) × (value ≤ n) × (n < value + alignment) × (n ≤ u64_max)
unfolding align_up
align_up-least value alignment {n} small e =
    let remainder = value % alignment in
    elim (Bool-cases (alignment == 0)) [
      | inl none ↦ absurd (let f = rw (none, align_up) at e in cc)
      | inr some ↦
          let positive : 0 < alignment = ground arith in
          let below = mod-lt value positive in
          elim (Bool-cases (remainder == 0)) [
            | inl aligned ↦
                let same : value ≡ n = ok-injective (rw (some, aligned, align_up) at e) in
                let zero_left : value % alignment ≡ 0 = (==_iff _ _).0 aligned in
                (positive, rw (← same) zero_left, omega arith, omega arith, omega arith)
            | inr off ↦ elim (Bool-cases (ltb (u64_max - (alignment - remainder)) value)) [
              | inl over ↦ absurd (let f = rw (some, off, over, align_up) at e in cc)
              | inr fits ↦
                  let left : 0 < remainder = ground arith in
                  let room : value + (alignment - remainder) ≤ u64_max = ground arith in
                  let same : wrap (value + (alignment - remainder)) ≡ n =
                    ok-injective (rw (some, off, fits, align_up) at e) in
                  let exact : value + (alignment - remainder) ≡ n =
                    sym (wrap_lem _ (omega arith)) ∙ same in
                  (
                    positive,
                    rw (← exact) (next_multiple value alignment positive left),
                    omega arith,
                    omega arith,
                    omega arith,
                  )
            ]
          ]
    ]

-- The mathematical number of elements.
abbrev pub elements_of : List ℕ → ℕ
elements_of [] = 1
elements_of (dim ∷ shape) = dim * elements_of shape

product_loop-elements_of :
    (result : ℕ) (shape : List ℕ) {n : ℕ}
    → result ≤ u64_max
    → product_loop result shape ≡ ok n
    → (n ≡ result * elements_of shape) × (n ≤ u64_max)
unfolding product_loop
product_loop-elements_of result [] small e = (ground arith, ground arith)
product_loop-elements_of result (dim ∷ shape) {n} small e =
    elim (Bool-cases (product_exceeds result dim)) [
      | inl over ↦ absurd (let f = rw (over, product_loop) at e in cc)
      | inr fits ↦
          let le = mul-le-u64_max result dim fits in
          let same = wrap_lem (result * dim) (omega arith) in
          let (exact, bound) =
            product_loop-elements_of (result * dim) shape {n = n} le
              (rw (fits, same, product_loop) at e) in
          (exact ∙ mul_assoc result dim (elements_of shape), bound)
    ]

pub product-elements_of :
    (shape : List ℕ) {n : ℕ} → product shape ≡ ok n → (n ≡ elements_of shape) × (n ≤ u64_max)
unfolding product
product-elements_of shape {n} e =
    let (exact, bound) = product_loop-elements_of 1 shape {n = n} (omega arith) e in
    (exact ∙ one-mul (elements_of shape), bound)

-- A row that is sound: an exact layout of positive sizes.
abbrev is_sound : ℕ → TypeLayout → Bool
is_sound type l = has_exact_layout type && ltb 0 l.block_size && ltb 0 l.type_size

sound_parts :
    (h : Bool) (b t : ℕ) → (h && ltb 0 b && ltb 0 t) ≡ true → (h ≡ true) × (0 < b) × (0 < t)
sound_parts h b t e = (ground arith, ground arith, ground arith)

abbrev all_sound : List (ℕ × TypeLayout) → Bool
all_sound [] = true
all_sound ((t, l) ∷ rows) = is_sound t l && all_sound rows

find_layout-is_sound :
    (type : ℕ) (rows : List (ℕ × TypeLayout)) {l : TypeLayout}
    → all_sound rows ≡ true
    → find_layout type rows ≡ ok l
    → is_sound type l ≡ true
unfolding find_layout
find_layout-is_sound type [] s e = absurd (cc)
find_layout-is_sound type ((t, k) ∷ rows) {l} s e = elim (Bool-cases (t == type)) [
  | inl here ↦
      let same : t ≡ type = (==_iff t type).0 here in
      let found : k ≡ l = ok-injective (rw (here, find_layout) at e) in
      rw (← same, ← found) (and-left _ _ s)
  | inr there ↦ find_layout-is_sound type rows (and-right _ _ s) (rw (there, find_layout) at e)
]

type_layouts-all_sound : all_sound type_layouts ≡ true
unfolding type_layouts has_exact_layout
type_layouts-all_sound = refl

ggml_type_layout-is_sound :
    (type : ℕ) {l : TypeLayout} → ggml_type_layout type ≡ ok l → is_sound type l ≡ true
unfolding ggml_type_layout
ggml_type_layout-is_sound type {l} e =
    find_layout-is_sound type type_layouts {l = l} type_layouts-all_sound e

layout_nbytes-exact :
    (elements : ℕ) (l : TypeLayout) {n : ℕ}
    → 0 < l.block_size
    → 0 < l.type_size
    → layout_nbytes elements l ≡ ok n
    → (blocks : ℕ) × (elements ≡ blocks * l.block_size) × (n ≡ blocks * l.type_size) × (n ≤ u64_max)
unfolding layout_nbytes
layout_nbytes-exact elements l {n} b t e =
    let blocks = elements / l.block_size in
    elim (Bool-cases (elements % l.block_size == 0)) [
      | inr part ↦ absurd (let f = rw (part, layout_nbytes) at e in cc)
      | inl whole ↦ elim (Bool-cases (ltb (u64_max / l.type_size) blocks)) [
        | inl over ↦ absurd (let f = rw (whole, over, layout_nbytes) at e in cc)
        | inr fits ↦
            let le : blocks * l.type_size ≤ u64_max =
              (le-div_iff_mul-le t).0
                (let x : blocks ≤ u64_max / l.type_size = ground arith in x) in
            let same : wrap (blocks * l.type_size) ≡ n =
              ok-injective (rw (whole, fits, layout_nbytes) at e) in
            let exact : blocks * l.type_size ≡ n = sym (wrap_lem _ (omega arith)) ∙ same in
            let filled : elements % l.block_size ≡ 0 = (==_iff _ _).0 whole in
            let split = div-add-mod' elements l.block_size in
            let elements_are : blocks * l.block_size ≡ elements = omega arith in
            (blocks, sym elements_are, sym exact, omega arith)
      ]
    ]

-- Where `tensor_nbytes` returns, the type has a layout, the elements fill whole blocks, and the bytes
-- are those of the blocks with no wrap-around.
pub tensor_nbytes-exact :
    (shape : List ℕ) (type : ℕ) {n : ℕ}
    → tensor_nbytes shape type ≡ ok n
    → (l : TypeLayout) × (ggml_type_layout type ≡ ok l)
      × (blocks : ℕ) × (elements_of shape ≡ blocks * l.block_size)
      × (n ≡ blocks * l.type_size)
      × (n ≤ u64_max)
unfolding tensor_nbytes
tensor_nbytes-exact shape type {n} e =
    let (elements, counted, rest) = >>=-eq-ok (product shape) _ e in
    let (l, listed, size) = >>=-eq-ok (ggml_type_layout type) _ rest in
    let (exact, small) = product-elements_of shape {n = elements} counted in
    let sound = ggml_type_layout-is_sound type {l = l} listed in
    let (exact_layout, b, t) = sound_parts (has_exact_layout type) l.block_size l.type_size sound in
    let (blocks, filled, bytes, bound) =
      layout_nbytes-exact elements l {n = n} b t (rw exact_layout at size) in
    (l, listed, blocks, sym exact ∙ filled, bytes, bound)
