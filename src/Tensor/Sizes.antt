-- ===== src/Tensor/Sizes.antt =====
-- The sizes are the exact products, or an error.
use kraken_infer.Base.{
  ℕ, ◌*◌, ◌≤◌, ◌<◌, ◌≡◌, ◌∙◌, sym, ap, inl, inr, false, List, [], ◌∷◌, ℤ, pos, negsuc, wrap_lem,
  u64_max, product_exceeds, product_exceeds_lt, mul-le-u64_max, if◌then◌else◌, Bool-cases, leb, ok,
  err, overflow_error, arith, >>=-eq-ok, All,
}
use kraken_infer.Tensor.Shape.{
  DType, f32, TensorDesc, dtype_size_bytes, count_dims, element_count, byte_size,
}
use native.Mathlib.Nat.{mul_assoc, mul-one, one-mul}

-- The mathematical number of elements; a negative dimension counts as 0.
abbrev pub volume : List ℤ → ℕ
volume [] = 1
volume (pos d ∷ shape) = d * volume shape
volume (negsuc n ∷ shape) = 0

abbrev pub IsDim : ℤ → Type 0
IsDim (pos d) = Unit
IsDim (negsuc n) = ⊥

count_dims-volume :
    (total : ℕ) (shape : List ℤ) {n : ℕ}
    → total ≤ u64_max
    → count_dims total shape ≡ ok n
    → All IsDim shape × (n ≡ total * volume shape) × (n ≤ u64_max)
unfolding count_dims
count_dims-volume total [] le e = (tt, (ground arith), (ground arith))
count_dims-volume total (negsuc d ∷ shape) le e = absurd (cc)
count_dims-volume total (pos d ∷ shape) {n} le e = elim (Bool-cases (product_exceeds total d)) [
  | inl over ↦ absurd (let f = rw (over, count_dims) at e in cc)
  | inr fits ↦
      let small = mul-le-u64_max total d fits in
      let same = wrap_lem (total * d) (omega arith) in
      let (dims, exact, bound) =
        count_dims-volume (total * d) shape {n = n} small (rw (fits, same, count_dims) at e) in
      ((tt, dims), exact ∙ mul_assoc total d (volume shape), bound)
]

-- A count that is returned is the product of the dimensions, none of them negative, and it fits
-- `std::size_t`.
pub element_count-volume :
    (shape : List ℤ) {n : ℕ}
    → element_count shape ≡ ok n
    → All IsDim shape × (n ≡ volume shape) × (n ≤ u64_max)
unfolding element_count
element_count-volume shape {n} e =
    let (dims, exact, bound) = count_dims-volume 1 shape {n = n} (omega arith) e in
    (dims, exact ∙ one-mul (volume shape), bound)

abbrev pub IsPositive : ℤ → Type 0
IsPositive (pos d) = 0 < d
IsPositive (negsuc n) = ⊥

volume-pos : (shape : List ℤ) → All IsPositive shape → 0 < volume shape
volume-pos [] a = omega arith
volume-pos (pos d ∷ shape) a = let p = a.0 in let q = volume-pos shape a.1 in grind arith
volume-pos (negsuc n ∷ shape) a = absurd a.0

count_dims_total :
    (total : ℕ) (shape : List ℤ)
    → total ≤ u64_max
    → All IsPositive shape
    → count_dims total shape ≡ (
        if leb (total * volume shape) u64_max
        then ok (total * volume shape)
        else err overflow_error)
unfolding count_dims
count_dims_total total [] le a = rw mul-one (ground arith)
count_dims_total total (negsuc n ∷ shape) le a = absurd a.0
count_dims_total total (pos d ∷ shape) le a = elim (Bool-cases (product_exceeds total d)) [
  | inl over ↦
      let big = product_exceeds_lt total d over in
      let more = volume-pos shape a.1 in
      let bigger : total * d ≤ total * d * volume shape = grind arith in
      let no_fit : leb (total * d * volume shape) u64_max ≡ false = ground arith in
      rw (over, ← mul_assoc total d (volume shape), no_fit)
  | inr fits ↦
      let small = mul-le-u64_max total d fits in
      let same = wrap_lem (total * d) (omega arith) in
      rw (fits, same, ← mul_assoc total d (volume shape))
        (count_dims_total (total * d) shape small a.1)
]

-- For positive dimensions `element_count` returns the product of the dimensions when that fits a
-- `std::size_t`, and an overflow error otherwise.
pub element_count_total :
    (shape : List ℤ)
    → All IsPositive shape
    → element_count shape
      ≡ (if leb (volume shape) u64_max then ok (volume shape) else err overflow_error)
unfolding element_count
element_count_total shape a =
    rw (one-mul (volume shape)) at (count_dims_total 1 shape (omega arith) a)

dtype_size_bytes-pos : (t : DType) → 0 < dtype_size_bytes t
unfolding dtype_size_bytes
dtype_size_bytes-pos f32 = omega arith
dtype_size_bytes-pos _ = omega arith

-- A tensor's byte size, where it is returned, is its element count times the element size, with no
-- wrap-around.
pub byte_size-volume :
    (desc : TensorDesc) {n : ℕ}
    → byte_size desc ≡ ok n
    → All IsDim desc.shape × (n ≡ volume desc.shape * dtype_size_bytes desc.dtype) × (n ≤ u64_max)
unfolding byte_size
byte_size-volume desc {n} e =
    let size = dtype_size_bytes desc.dtype in
    let (count, counted, rest) = >>=-eq-ok (element_count desc.shape) _ e in
    let (dims, exact, bound) = element_count-volume desc.shape {n = count} counted in
    elim (Bool-cases (product_exceeds count size)) [
      | inl over ↦ absurd (let f = rw over at rest in cc)
      | inr fits ↦
          let small = mul-le-u64_max count size fits in
          let same = wrap_lem (count * size) (omega arith) in
          let f = rw (fits, same) at rest in
          let value : count * size ≡ n = cc in
          (dims, sym value ∙ ap (λ k. k * size) exact, omega arith)
    ]
