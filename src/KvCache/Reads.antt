-- ===== src/KvCache/Reads.antt =====
-- What can be read after a store, and that reads and stores stay inside the arrays.
use kraken_infer.Base.{
  ℕ, ◌+◌, ◌*◌, ◌≤◌, ◌<◌, ◌≡◌, ◌≢◌, ◌⊎◌, refl, sym, ◌∙◌, inl, inr, List, wrap, u64_max, ltb,
  Bool-cases, lt→ltb, ==_iff, ok-injective, >>=-eq-ok, max, length, get_elem?, Option, ok, arith,
}
use kraken_infer.KvCache.Cache.{
  KvCache, copy_to, offset, validate_address, store, key_ptr, value_ptr,
}
use kraken_infer.KvCache.Copy.{
  length-copy_to, get_elem?-copy_to_in, get_elem?-copy_to_below, get_elem?-copy_to_above,
}
use kraken_infer.KvCache.Layout.{IsValid, IsAddress, row, offset_lem}

module _ {Float : Type 0} where
  -- An address is accepted exactly when each of its parts is in range.
  validate_address_ok :
      (c : KvCache Float) (layer position kv_head : ℕ)
      → IsAddress c layer position kv_head
      → validate_address c layer position kv_head ≡ ok tt
  unfolding validate_address
  validate_address_ok c layer position kv_head a = rw (
    lt→ltb layer c.layers a.layer_lt,
    lt→ltb position c.capacity_tokens a.position_lt,
    lt→ltb kv_head c.kv_heads a.head_lt,
  )

  validate_address-IsAddress :
      (c : KvCache Float) (layer position kv_head : ℕ)
      → validate_address c layer position kv_head ≡ ok tt
      → IsAddress c layer position kv_head
  unfolding validate_address
  validate_address-IsAddress c layer position kv_head e = record {
    layer_lt = ground arith;
    position_lt = ground arith;
    head_lt = ground arith;
  }

  -- On a valid cache, a pointer that `key_ptr` hands out is the one `value_ptr` hands out, and the
  -- `head_dim` cells from it on lie within the keys and within the values.
  pub key_ptr_in_bounds :
      (c : KvCache Float) (layer position kv_head : ℕ) {at : ℕ}
      → IsValid c
      → key_ptr c layer position kv_head ≡ ok at
      → (value_ptr c layer position kv_head ≡ ok at)
        × (at + c.head_dim ≤ length c.keys)
        × (at + c.head_dim ≤ length c.values)
  unfolding key_ptr value_ptr
  key_ptr_in_bounds c layer position kv_head {at} v e =
      let (u, checked, at_is) = >>=-eq-ok (validate_address c layer position kv_head) _ e in
      let a = validate_address-IsAddress c layer position kv_head checked in
      let (address, heads, cells) = offset_lem c layer position kv_head v a in
      let here : at ≡ offset c layer position kv_head = sym (ok-injective at_is) in
      let k = v.keys_sized in let w = v.values_sized in (e, omega arith, omega arith)

  -- The state after a store that is accepted.
  abbrev pub stored : KvCache Float → ℕ → ℕ → List Float → List Float → KvCache Float
  stored c layer position key value = record c {
    keys = copy_to c.keys (offset c layer position 0) key;
    values = copy_to c.values (offset c layer position 0) value;
    used_tokens = max c.used_tokens (wrap (position + 1));
  }

  pub store_accepts :
      (c : KvCache Float) (layer position : ℕ) (key value : List Float)
      → IsAddress c layer position 0
      → length key ≡ c.kv_dim
      → length value ≡ c.kv_dim
      → store c layer position key value ≡ ok (stored c layer position key value)
  unfolding store
  store_accepts c layer position key value a k w =
      rw (validate_address_ok c layer position 0 a, (==_iff _ _).1 k, (==_iff _ _).1 w)

  -- A store of any length keeps the cache valid, if the capacity fits a `std::size_t`.
  pub stored-IsValid :
      (c : KvCache Float) (layer position : ℕ) (key value : List Float)
      → IsValid c
      → IsAddress c layer position 0
      → c.capacity_tokens ≤ u64_max
      → IsValid (stored c layer position key value)
  stored-IsValid c layer position key value v a small = record {
    kv_dim_is = v.kv_dim_is;
    keys_sized = length-copy_to c.keys (offset c layer position 0) key ∙ v.keys_sized;
    values_sized = length-copy_to c.values (offset c layer position 0) value ∙ v.values_sized;
    fits = v.fits;
    head_dim_pos = v.head_dim_pos;
    used = (let used = v.used in let lt = a.position_lt in omega arith);
  }

-- What a read of one cell of a head returns: the pointer is computed, then its cell `j` is read.
abbrev pub Reads :
    {Float : Type 0} → KvCache Float → ℕ → ℕ → ℕ → ℕ → Option Float → Option Float → Type 0
Reads c layer position kv_head j k w =
    (key_ptr c layer position kv_head ≡ ok (offset c layer position kv_head))
    × (value_ptr c layer position kv_head ≡ ok (offset c layer position kv_head))
    × (get_elem? c.keys (offset c layer position kv_head + j) ≡ k)
    × (get_elem? c.values (offset c layer position kv_head + j) ≡ w)

rows_differ :
    (capacity l p l' p' : ℕ)
    → p < capacity
    → p' < capacity
    → (l ≢ l') ⊎ (p ≢ p')
    → l * capacity + p ≢ l' * capacity + p'
rows_differ capacity l p l' p' h h' apart e =
    let same : l ≡ l' = grind arith in
    elim apart [
      | inl differ ↦ differ same
      | inr differ ↦ differ (let f : l * capacity ≡ l' * capacity = rw same refl in omega arith)
    ]

row_before : (r r' dim : ℕ) → r < r' → r * dim + dim ≤ r' * dim
row_before r r' dim h = grind arith

module _ {Float : Type 0} where
  key_ptr_accepts :
      (c : KvCache Float) (layer position kv_head : ℕ)
      → IsAddress c layer position kv_head
      → (key_ptr c layer position kv_head ≡ ok (offset c layer position kv_head))
        × (value_ptr c layer position kv_head ≡ ok (offset c layer position kv_head))
  unfolding key_ptr value_ptr
  key_ptr_accepts c layer position kv_head a = (
    rw (validate_address_ok c layer position kv_head a),
    rw (validate_address_ok c layer position kv_head a),
  )

  -- On a valid cache, at an address in range and with a key and a value of `kv_dim` cells, `store`
  -- succeeds, and cell `j` of a head read back at that layer and position is that head's cell `j` of
  -- the stored key and value.
  pub store-Reads :
      (c : KvCache Float) (layer position kv_head j : ℕ) (key value : List Float)
      → IsValid c
      → IsAddress c layer position kv_head
      → j < c.head_dim
      → length key ≡ c.kv_dim
      → length value ≡ c.kv_dim
      → (store c layer position key value ≡ ok (stored c layer position key value))
        × Reads
            (stored c layer position key value)
            layer
            position
            kv_head
            j
            (get_elem? key (kv_head * c.head_dim + j))
            (get_elem? value (kv_head * c.head_dim + j))
  unfolding offset
  store-Reads c layer position kv_head j key value v a h k w =
      let s = stored c layer position key value in
      let first : IsAddress c layer position 0 = record {
        layer_lt = a.layer_lt;
        position_lt = a.position_lt;
        head_lt = omega (arith, a.head_lt);
      } in
      let (address, heads, row_in) = offset_lem c layer position kv_head v a in
      let (base, _, _) = offset_lem c layer position 0 v first in
      let sized = v.keys_sized in
      let sized' = v.values_sized in
      let (p, q) =
        key_ptr_accepts s layer position kv_head
          (record { layer_lt = a.layer_lt; position_lt = a.position_lt; head_lt = a.head_lt }) in
      (
        store_accepts c layer position key value first k w,
        (
          p,
          q,
          get_elem?-copy_to_in c.keys (offset c layer position 0) key (kv_head * c.head_dim + j) _
              (omega arith) (omega arith) (omega arith),
          get_elem?-copy_to_in c.values (offset c layer position 0) value (kv_head * c.head_dim + j)
              _ (omega arith) (omega arith) (omega arith),
        ),
      )

  copy_to_other :
      (target part : List Float) (r r' dim j base i : ℕ)
      → r ≢ r'
      → length part ≡ dim
      → j < dim
      → base ≡ r * dim
      → i ≡ r' * dim + j
      → get_elem? (copy_to target base part) i ≡ get_elem? target i
  copy_to_other target part r r' dim j base i apart k h e e' = elim (Bool-cases (ltb r r')) [
    | inl lt ↦
        let before : r * dim + dim ≤ r' * dim = row_before r r' dim (ground arith) in
        get_elem?-copy_to_above target base part i (omega arith)
    | inr ge ↦
        let after : r' < r = ground arith in
        let before : r' * dim + dim ≤ r * dim = row_before r' r dim after in
        get_elem?-copy_to_below target base part i (omega arith)
  ]

  -- On a valid cache, a store of a key and a value of `kv_dim` cells at a layer and position in range
  -- returns a cache in which every head at any other layer or position in range is read as before.
  pub store-frame :
      (c : KvCache Float) (layer position layer' position' kv_head j : ℕ) (key value : List Float)
      → IsValid c
      → IsAddress c layer position 0
      → IsAddress c layer' position' kv_head
      → (layer ≢ layer') ⊎ (position ≢ position')
      → j < c.head_dim
      → length key ≡ c.kv_dim
      → length value ≡ c.kv_dim
      → (after : KvCache Float) × (store c layer position key value ≡ ok after)
        × Reads after layer' position' kv_head j
            (get_elem? c.keys (offset c layer' position' kv_head + j))
            (get_elem? c.values (offset c layer' position' kv_head + j))
  unfolding offset
  store-frame c layer position layer' position' kv_head j key value v a b apart h k w =
      let s = stored c layer position key value in
      let (base, _, _) = offset_lem c layer position 0 v a in
      let (address, heads, _) = offset_lem c layer' position' kv_head v b in
      let r = row c layer position in
      let r' = row c layer' position' in
      let differ : r ≢ r' = λ e.
        rows_differ c.capacity_tokens layer position layer' position' a.position_lt b.position_lt
          apart e in
      let inside : kv_head * c.head_dim + j < c.kv_dim = omega arith in
      let (p, q) =
        key_ptr_accepts s layer' position' kv_head
          (record { layer_lt = b.layer_lt; position_lt = b.position_lt; head_lt = b.head_lt }) in
      (
        s,
        store_accepts c layer position key value a k w,
        (
          p,
          q,
          copy_to_other c.keys key r r' c.kv_dim (kv_head * c.head_dim + j) _ _ differ k inside
              (omega arith) (omega arith),
          copy_to_other c.values value r r' c.kv_dim (kv_head * c.head_dim + j) _ _ differ w inside
              (omega arith) (omega arith),
        ),
      )
