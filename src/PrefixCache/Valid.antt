-- ===== src/PrefixCache/Valid.antt =====
-- The well-formedness of the index, and that every operation keeps it.
use kraken_infer.Base.{
  ℕ, zero, suc, ◌+◌, ◌≤◌, ◌<◌, ◌≡◌, ◌≢◌, refl, ◌⊎◌, inl, inr, false, List, Bool-cases, length, All,
  Distinct, arith, u64_mod, wrap, All-map, ℤ, leb, ◌&&◌,
}
use kraken_infer.PrefixCache.Hash.{block_hash, block_hash-ne-zero, compute_hash, root_hash}
use kraken_infer.PrefixCache.Index.{
  BlockMetadata, Config, Index, Found, find_block, touch, accepts, init, clear, take_hit,
  lookup_loop, lookup, is_off, nothing_found, count_lookup,
}
use kraken_infer.PrefixCache.Blocks.{All-touch, Distinct-touch, length-touch}

-- A stored block has the configured number of tokens, carries the hash of what it stores, and was
-- used no later than the current tick.
pub record IsBlock (block_tokens tick : ℕ) (b : BlockMetadata) : Type 0 where
  pub counted : b.token_count ≡ block_tokens
  pub full : length b.tokens ≡ block_tokens
  pub hashed : (number : ℕ) × (b.hash ≡ block_hash block_tokens number b.tokens b.parent_hash)
  pub used : b.last_used_tick ≤ tick

-- The cache holds at most its capacity, the slots in use are distinct numbers below the number of
-- blocks, and no two blocks share a hash.
pub record IsValid (c : Index) : Type 0 where
  pub positive : (c.config.enabled ≡ false) ⊎ (0 < c.config.block_tokens)
  pub bounded : length c.blocks ≤ c.config.capacity_blocks
  pub sound : All (IsBlock c.config.block_tokens c.tick) c.blocks
  pub slots : All (λ b. b.slot < length c.blocks) c.blocks
  pub slots_distinct : Distinct (λ b. b.slot) c.blocks
  pub hashes_distinct : Distinct (λ b. b.hash) c.blocks

pub IsBlock-ne-zero : (size tick : ℕ) (b : BlockMetadata) → IsBlock size tick b → b.hash ≢ 0
IsBlock-ne-zero size tick b k =
    rw k.hashed.1 (block_hash-ne-zero size k.hashed.0 b.tokens b.parent_hash)

pub IsBlock-mono : (size s t : ℕ) (b : BlockMetadata) → s ≤ t → IsBlock size s b → IsBlock size t b
IsBlock-mono size s t b h k = record {
  counted = k.counted;
  full = k.full;
  hashed = k.hashed;
  used = omega arith;
}

-- The constructor and `clear` give a valid, empty index.
pub init-IsValid : (config : Config) → IsValid (init config)
unfolding init
init-IsValid config = record {
  positive = ground arith;
  bounded = omega arith;
  sound = tt;
  slots = tt;
  slots_distinct = tt;
  hashes_distinct = tt;
}

pub clear-IsValid : {c : Index} → IsValid c → IsValid (clear c)
unfolding clear
clear-IsValid v = record {
  positive = v.positive;
  bounded = omega arith;
  sound = tt;
  slots = tt;
  slots_distinct = tt;
  hashes_distinct = tt;
}

-- A stamped block: the common part of `lookup` and of a commit that finds its block.
pub touch-IsValid :
    (c : Index) (hash : ℕ)
    → IsValid c
    → c.tick + 1 < u64_mod
    → IsValid
        (record c { blocks = touch hash (wrap (c.tick + 1)) c.blocks; tick = wrap (c.tick + 1) })
touch-IsValid c hash v small =
    let t = wrap (c.tick + 1) in
    let later : c.tick ≤ t = omega arith in
    let size = c.config.block_tokens in
    record {
      positive = v.positive;
      bounded = rw length-touch v.bounded;
      sound =
          All-touch (IsBlock size t) hash t c.blocks
            (λ b k. record {
              counted = k.counted;
              full = k.full;
              hashed = k.hashed;
              used = omega arith;
            })
            (All-map (IsBlock size c.tick) (IsBlock size t) c.blocks
              (λ b k. IsBlock-mono size c.tick t b later k) v.sound);
      slots =
          rw length-touch
            (All-touch (λ b. b.slot < length c.blocks) hash t c.blocks (λ b p. p) v.slots);
      slots_distinct = Distinct-touch (λ b. b.slot) (λ b s. refl) hash t c.blocks v.slots_distinct;
      hashes_distinct =
          Distinct-touch (λ b. b.hash) (λ b s. refl) hash t c.blocks v.hashes_distinct;
    }

lookup_loop-IsValid :
    (fuel : ℕ) (tokens : List ℤ) (c : Index) (r : Found) (start parent : ℕ)
    → IsValid c
    → c.tick + fuel < u64_mod
    → IsValid (lookup_loop fuel tokens c r start parent).0
unfolding lookup_loop take_hit
lookup_loop-IsValid zero tokens c r start parent v small = v
lookup_loop-IsValid (suc fuel) tokens c r start parent v small =
    let size = c.config.block_tokens in
    let hash = compute_hash size tokens start parent in
    let next = record c {
      blocks = touch hash (wrap (c.tick + 1)) c.blocks;
      tick = wrap (c.tick + 1);
    } in
    let later =
      lookup_loop-IsValid fuel tokens next (take_hit c r hash).1 (wrap (start + size)) hash
        (touch-IsValid c hash v (omega arith)) (omega arith) in
    elim (Bool-cases (
      leb (wrap (start + size)) (length tokens)
      && accepts size tokens start parent (find_block hash c.blocks))) [
        | inl hit ↦ rw (hit, lookup_loop) later
        | inr miss ↦ rw (miss, lookup_loop) v
      ]

count_lookup-IsValid :
    (tokens : List ℤ) (c : Index) (r : Found) → IsValid c → IsValid (count_lookup tokens c r)
unfolding count_lookup
count_lookup-IsValid tokens c r v = record {
  positive = v.positive;
  bounded = v.bounded;
  sound = v.sound;
  slots = v.slots;
  slots_distinct = v.slots_distinct;
  hashes_distinct = v.hashes_distinct;
}

-- `lookup` keeps the index valid, as long as the tick counter does not wrap during the call.
pub lookup-IsValid :
    (c : Index) (tokens : List ℤ)
    → IsValid c
    → c.tick + length tokens + 1 < u64_mod
    → IsValid (lookup c tokens).0
unfolding lookup
lookup-IsValid c tokens v small = elim (Bool-cases (is_off c.config)) [
  | inl off ↦ rw (off, lookup) (count_lookup-IsValid tokens c nothing_found v)
  | inr on ↦
      rw (on, lookup)
        (count_lookup-IsValid tokens _ _ (
          lookup_loop-IsValid (suc (length tokens)) tokens c nothing_found 0 root_hash v
            (omega arith)))
]
