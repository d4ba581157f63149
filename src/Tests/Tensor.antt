-- ===== src/Tests/Tensor.antt =====
-- Shapes whose sizes fit, and one whose product does not.
use kraken_infer.Base.{
  ◌*◌, ◌≤◌, ◌≡◌, refl, List, [], ◌∷◌, ℤ, pos, u64_max, leb, if◌then◌else◌, ok, err, overflow_error,
  All, arith,
}
use kraken_infer.Tensor.Shape.{
  f16, TensorDesc, dtype_size_bytes, element_count, byte_size, count_dims,
}
use kraken_infer.Tensor.Sizes.{
  volume, IsDim, element_count-volume, element_count_total, byte_size-volume,
}

program : Unit {0}
unfolding dtype_size_bytes count_dims element_count byte_size
program = tt

abbrev shape : List ℤ
shape = pos 2 ∷ pos 3 ∷ pos 4 ∷ []

abbrev huge : List ℤ
huge = pos 4294967296 ∷ pos 4294967296 ∷ []

abbrev desc : TensorDesc
desc = record { dtype = f16; shape = shape }

huge_count : element_count huge ≡ err overflow_error
unfolding program
huge_count = refl

element_count-volume_example : All IsDim shape × (24 ≡ volume shape) × (24 ≤ u64_max)
unfolding program
element_count-volume_example = element_count-volume shape refl

element_count_total_example :
    element_count shape
    ≡ (if leb (volume shape) u64_max then ok (volume shape) else err overflow_error)
element_count_total_example =
    element_count_total shape (omega arith, (omega arith, (omega arith, tt)))

byte_size-volume_example :
    All IsDim desc.shape × (48 ≡ volume desc.shape * dtype_size_bytes desc.dtype) × (48 ≤ u64_max)
unfolding program
byte_size-volume_example = byte_size-volume desc refl
