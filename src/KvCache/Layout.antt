-- ===== src/KvCache/Layout.antt =====
-- The address arithmetic: a valid cache is a layers × tokens × heads × head_dim array, and no
-- address computation wraps.
use kraken_infer.Base.{
  length_error, guard, ◌>>◌, not, ℕ, ◌+◌, ◌*◌, ◌/◌, ◌≤◌, ◌<◌, ◌≡◌, refl, inl, inr, false, ◌||◌,
  wrap, wrap_lem, u64_max, ltb, leb, ◌==◌, if◌then◌else◌, Bool-cases, length, length-replicate,
  replicate, product_exceeds, product_exceeds-false, product_exceeds-true, mul-le-u64_max, ok, err,
  runtime_error, arith,
}
use kraken_infer.KvCache.Cache.{KvCache, offset, reset}

pub record IsValid {Float : Type 0} (c : KvCache Float) : Type 0 where
  pub kv_dim_is : c.kv_dim ≡ c.kv_heads * c.head_dim
  pub keys_sized : length c.keys ≡ c.layers * c.capacity_tokens * c.kv_dim
  pub values_sized : length c.values ≡ c.layers * c.capacity_tokens * c.kv_dim
  pub fits : c.layers * c.capacity_tokens * c.kv_dim ≤ u64_max
  pub head_dim_pos : 0 < c.head_dim
  pub used : c.used_tokens ≤ c.capacity_tokens

-- The row of `layer` and `position`, of `kv_dim` cells each.
abbrev pub row : {Float : Type 0} → KvCache Float → ℕ → ℕ → ℕ
row c layer position = layer * c.capacity_tokens + position

pub record IsAddress {Float : Type 0} (c : KvCache Float) (layer position kv_head : ℕ)
    : Type 0 where
  pub layer_lt : layer < c.layers
  pub position_lt : position < c.capacity_tokens
  pub head_lt : kv_head < c.kv_heads

row_lt :
    (layers capacity layer position : ℕ)
    → layer < layers
    → position < capacity
    → layer * capacity + position < layers * capacity
row_lt layers capacity layer position h k = grind arith

row_end : (rows dim r : ℕ) → r < rows → r * dim + dim ≤ rows * dim
row_end rows dim r h = grind arith

le_mul_pos_left : (n d : ℕ) → 0 < n → d ≤ n * d
le_mul_pos_left n d h = grind arith

le_mul_pos : (n d : ℕ) → 0 < d → n ≤ n * d
le_mul_pos n d h = grind arith

-- The address of a head's first cell, and that all its cells are inside the array.
pub offset_lem :
    {Float : Type 0} (c : KvCache Float) (layer position kv_head : ℕ)
    → IsValid c
    → IsAddress c layer position kv_head
    → (offset c layer position kv_head ≡ row c layer position * c.kv_dim + kv_head * c.head_dim)
      × (kv_head * c.head_dim + c.head_dim ≤ c.kv_dim)
      × (row c layer position * c.kv_dim + c.kv_dim ≤ c.layers * c.capacity_tokens * c.kv_dim)
unfolding offset
offset_lem c layer position kv_head v a =
    let r = row c layer position in
    let rows = c.layers * c.capacity_tokens in
    let in_rows : r < rows =
      row_lt c.layers c.capacity_tokens layer position a.layer_lt a.position_lt in
    let heads : kv_head * c.head_dim + c.head_dim ≤ c.kv_dim =
      rw v.kv_dim_is (row_end c.kv_heads c.head_dim kv_head a.head_lt) in
    let cells : r * c.kv_dim + c.kv_dim ≤ rows * c.kv_dim = row_end rows c.kv_dim r in_rows in
    let dim_pos : 0 < c.kv_dim = (let p = v.head_dim_pos in omega arith) in
    let rows_small : rows ≤ rows * c.kv_dim = le_mul_pos rows c.kv_dim dim_pos in
    let fits = v.fits in
    let w1 : wrap (layer * c.capacity_tokens) ≡ layer * c.capacity_tokens =
      wrap_lem _ (omega arith) in
    let w2 : wrap r ≡ r = wrap_lem r (omega arith) in
    let w3 : wrap (r * c.kv_dim) ≡ r * c.kv_dim = wrap_lem _ (omega arith) in
    let w4 : wrap (kv_head * c.head_dim) ≡ kv_head * c.head_dim = wrap_lem _ (omega arith) in
    let w5 : wrap (r * c.kv_dim + kv_head * c.head_dim) ≡ r * c.kv_dim + kv_head * c.head_dim =
      wrap_lem _ (omega arith) in
    (rw (w1, w2, w3, w4) w5, heads, cells)

-- The cells of a cache with these dimensions.
abbrev pub cells : ℕ → ℕ → ℕ → ℕ → ℕ
cells layers capacity kv_heads head_dim = layers * capacity * (kv_heads * head_dim)

abbrev pub fresh_cache : {Float : Type 0} → Float → ℕ → ℕ → ℕ → ℕ → KvCache Float
fresh_cache zero_float layers capacity kv_heads head_dim = record {
  layers = layers;
  capacity_tokens = capacity;
  used_tokens = 0;
  kv_heads = kv_heads;
  head_dim = head_dim;
  kv_dim = kv_heads * head_dim;
  keys = replicate (cells layers capacity kv_heads head_dim) zero_float;
  values = replicate (cells layers capacity kv_heads head_dim) zero_float;
}

-- The source's quotient test, for a divisor that is not 0.
quotient_test : (x y : ℕ) → 0 < y → ltb (u64_max / y) x ≡ product_exceeds x y
quotient_test x y h = ground arith

-- For positive dimensions `reset` builds a fresh cache of the exact product of cells when that
-- product fits a `std::size_t`, and throws otherwise: the quotient tests miss no wrap-around and
-- reject no cache that fits. Above the `max_size` of a vector, a cache that fits is a length error.
pub reset_total :
    {Float : Type 0} (max_size : ℕ) (z : Float) (layers capacity kv_heads head_dim : ℕ)
    → 0 < layers
    → 0 < capacity
    → 0 < kv_heads
    → 0 < head_dim
    → reset max_size z layers capacity kv_heads head_dim ≡ (
        if leb (cells layers capacity kv_heads head_dim) u64_max
        then guard (not (ltb max_size (cells layers capacity kv_heads head_dim))) length_error
          >> ok (fresh_cache z layers capacity kv_heads head_dim)
        else err runtime_error)
unfolding reset
reset_total max_size z layers capacity kv_heads head_dim pl pc ph pd =
    let dim = kv_heads * head_dim in
    let rows = layers * capacity in
    let dim_pos : 0 < dim = grind arith in
    let rows_pos : 0 < rows = grind arith in
    let dim_le : dim ≤ rows * dim = le_mul_pos_left rows dim rows_pos in
    let rows_le : rows ≤ rows * dim = le_mul_pos rows dim dim_pos in
    let positive : (layers == 0 || capacity == 0 || kv_heads == 0 || head_dim == 0) ≡ false =
      ground arith in
    elim (Bool-cases (leb (rows * dim) u64_max)) [
      | inl fits ↦
          let small : rows * dim ≤ u64_max = ground arith in
          rw (
            positive,
            quotient_test kv_heads head_dim pd,
            product_exceeds-false kv_heads head_dim (omega arith),
            wrap_lem dim (omega arith),
            quotient_test layers capacity pc,
            product_exceeds-false layers capacity (omega arith),
            wrap_lem rows (omega arith),
            quotient_test rows dim dim_pos,
            product_exceeds-false rows dim small,
            wrap_lem (rows * dim) (omega arith),
            fits,
          )
      | inr over ↦
          let big : u64_max < rows * dim = ground arith in
          elim (Bool-cases (product_exceeds kv_heads head_dim)) [
            | inl wide ↦ rw (positive, quotient_test kv_heads head_dim pd, wide, over)
            | inr narrow ↦
                let dim_small = mul-le-u64_max kv_heads head_dim narrow in
                elim (Bool-cases (product_exceeds layers capacity)) [
                  | inl long ↦ rw (
                    positive,
                    quotient_test kv_heads head_dim pd,
                    narrow,
                    quotient_test layers capacity pc,
                    long,
                    over,
                  )
                  | inr short ↦
                      let rows_small = mul-le-u64_max layers capacity short in
                      rw (
                        positive,
                        quotient_test kv_heads head_dim pd,
                        narrow,
                        wrap_lem dim (omega arith),
                        quotient_test layers capacity pc,
                        short,
                        wrap_lem rows (omega arith),
                        quotient_test rows dim dim_pos,
                        product_exceeds-true rows dim big,
                        over,
                      )
                ]
          ]
    ]

pub fresh_cache-IsValid :
    {Float : Type 0} (z : Float) (layers capacity kv_heads head_dim : ℕ)
    → 0 < head_dim
    → cells layers capacity kv_heads head_dim ≤ u64_max
    → IsValid (fresh_cache z layers capacity kv_heads head_dim)
fresh_cache-IsValid z layers capacity kv_heads head_dim pd h = record {
  kv_dim_is = refl;
  keys_sized = length-replicate (cells layers capacity kv_heads head_dim) z;
  values_sized = length-replicate (cells layers capacity kv_heads head_dim) z;
  fits = h;
  head_dim_pos = pd;
  used = omega arith;
}
