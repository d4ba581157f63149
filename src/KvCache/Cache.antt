-- ===== src/KvCache/Cache.antt =====
-- `KvCache` and its methods. Floats are a type parameter; `zero_float` is `0.0F`.
use kraken_infer.Base.{
  length_error, ℕ, zero, suc, ◌+◌, ◌*◌, ◌/◌, max, Bool, not, ◌||◌, List, [], ◌∷◌, wrap, u64_max,
  ltb, ◌==◌, if◌then◌else◌, length, replicate, Outcome, ok, err, runtime_error, guard, ◌>>=◌, ◌>>◌,
}

pub record KvCache (Float : Type 0) : Type 0 where
  pub layers : ℕ
  pub capacity_tokens : ℕ
  pub used_tokens : ℕ
  pub kv_heads : ℕ
  pub head_dim : ℕ
  pub kv_dim : ℕ
  pub keys : List Float
  pub values : List Float

pub record KvCacheStats : Type 0 where
  pub available : Bool
  pub layers : ℕ
  pub kv_heads : ℕ
  pub head_dim : ℕ
  pub kv_dim : ℕ
  pub capacity_tokens : ℕ
  pub used_tokens : ℕ
  pub key_bytes : ℕ
  pub value_bytes : ℕ
  pub total_bytes : ℕ

-- `sizeof(float)` is 4.
unfoldable pub bytes_for : ℕ → Outcome ℕ
bytes_for values = if ltb (u64_max / 4) values then err runtime_error else ok (wrap (values * 4))

module _ {Float : Type 0} where
  -- `std::copy(part.begin(), part.end(), target.begin() + base)`.
  unfoldable pub copy_to : List Float → ℕ → List Float → List Float
  copy_to target zero [] = target
  copy_to [] zero (v ∷ part) = []
  copy_to (x ∷ target) zero (v ∷ part) = v ∷ copy_to target zero part
  copy_to [] (suc base) part = []
  copy_to (x ∷ target) (suc base) part = x ∷ copy_to target base part

  unfoldable pub offset : KvCache Float → ℕ → ℕ → ℕ → ℕ
  offset c layer position kv_head = wrap (
      wrap (wrap (wrap (layer * c.capacity_tokens) + position) * c.kv_dim)
      + wrap (kv_head * c.head_dim))

  unfoldable pub validate_address : KvCache Float → ℕ → ℕ → ℕ → Outcome (Unit {0})
  validate_address c layer position kv_head = do
    guard (ltb layer c.layers) runtime_error
    guard (ltb position c.capacity_tokens) runtime_error
    guard (ltb kv_head c.kv_heads) runtime_error

  -- `reset` replaces every field of the cache. `max_size` is that of `std::vector<float>`, above which
  -- `assign` throws.
  unfoldable pub reset : (max_size : ℕ) → Float → ℕ → ℕ → ℕ → ℕ → Outcome (KvCache Float)
  reset max_size zero_float layers capacity_tokens kv_heads head_dim = do
    guard (not (layers == 0 || capacity_tokens == 0 || kv_heads == 0 || head_dim == 0))
        runtime_error
    guard (not (ltb (u64_max / head_dim) kv_heads)) runtime_error
    let kv_dim = wrap (kv_heads * head_dim)
    guard
        (not (
          ltb (u64_max / capacity_tokens) layers
          || ltb (u64_max / kv_dim) (wrap (layers * capacity_tokens))))
        runtime_error
    let cells = wrap (wrap (layers * capacity_tokens) * kv_dim)
    guard (not (ltb max_size cells)) length_error
    ok (record {
      layers = layers;
      capacity_tokens = capacity_tokens;
      used_tokens = 0;
      kv_heads = kv_heads;
      head_dim = head_dim;
      kv_dim = kv_dim;
      keys = replicate cells zero_float;
      values = replicate cells zero_float;
    })

  unfoldable pub store : KvCache Float → ℕ → ℕ → List Float → List Float → Outcome (KvCache Float)
  unfolding validate_address offset copy_to
  store c layer position key value = do
    validate_address c layer position 0
    guard (length key == c.kv_dim) runtime_error
    guard (length value == c.kv_dim) runtime_error
    let base = offset c layer position 0
    ok (record c {
      keys = copy_to c.keys base key;
      values = copy_to c.values base value;
      used_tokens = max c.used_tokens (wrap (position + 1));
    })

  -- The pointer as an index into `keys_` (and, for `value_ptr`, into `values_`).
  unfoldable pub key_ptr : KvCache Float → ℕ → ℕ → ℕ → Outcome ℕ
  unfolding validate_address offset
  key_ptr c layer position kv_head = do
    validate_address c layer position kv_head
    ok (offset c layer position kv_head)

  unfoldable pub value_ptr : KvCache Float → ℕ → ℕ → ℕ → Outcome ℕ
  unfolding validate_address offset
  value_ptr c layer position kv_head = do
    validate_address c layer position kv_head
    ok (offset c layer position kv_head)

  unfoldable pub kv_stats : KvCache Float → Outcome KvCacheStats
  unfolding bytes_for
  kv_stats c = do
    key_bytes ← bytes_for (length c.keys)
    value_bytes ← bytes_for (length c.values)
    ok (record {
      available = Bool.true;
      layers = c.layers;
      kv_heads = c.kv_heads;
      head_dim = c.head_dim;
      kv_dim = c.kv_dim;
      capacity_tokens = c.capacity_tokens;
      used_tokens = c.used_tokens;
      key_bytes = key_bytes;
      value_bytes = value_bytes;
      total_bytes = wrap (key_bytes + value_bytes);
    })
