-- ===== src/Tests/KvCache.antt =====
-- A cache of two layers, three tokens and two heads of two cells each.
use kraken_infer.Base.{
  length_error, guard, ◌>>◌, not, ltb, ◌^◌, ◌-◌, ℕ, ◌+◌, ◌*◌, ◌≤◌, ◌≡◌, refl, inl, List, [], ◌∷◌,
  u64_max, leb, if◌then◌else◌, length, get_elem?, ok, err, runtime_error, arith,
}
use kraken_infer.KvCache.Cache.{
  KvCache, copy_to, offset, validate_address, reset, store, key_ptr, value_ptr,
}
use kraken_infer.KvCache.Layout.{
  IsValid, IsAddress, cells, fresh_cache, fresh_cache-IsValid, reset_total,
}
use kraken_infer.KvCache.Reads.{Reads, stored, key_ptr_in_bounds, store-Reads, store-frame}

program : Unit {0}
unfolding copy_to offset validate_address reset store key_ptr value_ptr
program = tt

abbrev cache : KvCache ℕ
cache = fresh_cache 0 2 3 2 2

cache-IsValid : IsValid cache
cache-IsValid = fresh_cache-IsValid 0 2 3 2 2 (omega arith) (omega arith)

at_1_2_1 : IsAddress cache 1 2 1
at_1_2_1 = record { layer_lt = omega arith; position_lt = omega arith; head_lt = omega arith }

at_1_2_0 : IsAddress cache 1 2 0
at_1_2_0 = record { layer_lt = omega arith; position_lt = omega arith; head_lt = omega arith }

at_0_2_1 : IsAddress cache 0 2 1
at_0_2_1 = record { layer_lt = omega arith; position_lt = omega arith; head_lt = omega arith }

abbrev key : List ℕ
key = 10 ∷ 11 ∷ 12 ∷ 13 ∷ []

abbrev value : List ℕ
value = 20 ∷ 21 ∷ 22 ∷ 23 ∷ []

reset_total_example : reset {Float = ℕ} (2 ^ 61 - 1) 0 2 3 2 2 ≡ (
    if leb (cells 2 3 2 2) u64_max
    then guard (not (ltb (2 ^ 61 - 1) (cells 2 3 2 2))) length_error >> ok (fresh_cache 0 2 3 2 2)
    else err runtime_error)
reset_total_example =
    reset_total {Float = ℕ} (2 ^ 61 - 1) 0 2 3 2 2 (omega arith) (omega arith) (omega arith)
      (omega arith)

key_ptr_in_bounds_example :
    (value_ptr cache 1 2 1 ≡ ok 22)
    × (22 + cache.head_dim ≤ length cache.keys)
    × (22 + cache.head_dim ≤ length cache.values)
unfolding program
key_ptr_in_bounds_example = key_ptr_in_bounds cache 1 2 1 cache-IsValid refl

store-Reads_example :
    (store cache 1 2 key value ≡ ok (stored cache 1 2 key value))
    × Reads
        (stored cache 1 2 key value)
        1
        2
        1
        1
        (get_elem? key (1 * cache.head_dim + 1))
        (get_elem? value (1 * cache.head_dim + 1))
store-Reads_example =
    store-Reads cache 1 2 1 1 key value cache-IsValid at_1_2_1 (omega arith) refl refl

store-frame_example :
    (after : KvCache ℕ) × (store cache 1 2 key value ≡ ok after)
    × Reads after 0 2 1 1
        (get_elem? cache.keys (offset cache 0 2 1 + 1))
        (get_elem? cache.values (offset cache 0 2 1 + 1))
store-frame_example =
    store-frame cache 1 2 0 2 1 1 key value cache-IsValid at_1_2_0 at_0_2_1 (inl (λ e. omega arith))
      (omega arith) refl refl
