-- ===== src/Tensor/Shape.antt =====
-- `DType`, `dtype_size_bytes`, `element_count`, `Tensor::Tensor`, `numel` and `byte_size`. The device
-- and the text names of the types play no part in the sizes.
use kraken_infer.Base.{
  ℕ, ◌*◌, List, [], ◌∷◌, ℤ, pos, negsuc, wrap, product_exceeds, if◌then◌else◌, Outcome, ok, err,
  invalid_argument, overflow_error, ◌>>=◌,
}

pub data DType : Type 0 where
  f32 f16 i32 i64 u8 : DType

pub record TensorDesc : Type 0 where
  pub dtype : DType
  pub shape : List ℤ

unfoldable pub dtype_size_bytes : DType → ℕ
dtype_size_bytes f32 = 4
dtype_size_bytes i32 = 4
dtype_size_bytes f16 = 2
dtype_size_bytes i64 = 8
dtype_size_bytes u8 = 1

-- The loop of `element_count`.
unfoldable pub count_dims : ℕ → List ℤ → Outcome ℕ
count_dims total [] = ok total
count_dims total (negsuc n ∷ shape) = err invalid_argument
count_dims total (pos d ∷ shape) =
    let rest = count_dims (wrap (total * d)) shape in
    if product_exceeds total d then err overflow_error else rest

unfoldable pub element_count : List ℤ → Outcome ℕ
unfolding count_dims
element_count shape = count_dims 1 shape

-- The constructor checks the shape.
unfoldable pub make_tensor : TensorDesc → Outcome TensorDesc
make_tensor desc = do _ ← element_count desc.shape; ok desc

unfoldable pub byte_size : TensorDesc → Outcome ℕ
byte_size desc = do
  count ← element_count desc.shape
  if product_exceeds count (dtype_size_bytes desc.dtype)
      then err overflow_error
      else ok (wrap (count * dtype_size_bytes desc.dtype))
