-- ===== src/PrefixCache/Index.antt =====
-- The state of `Qwen35PrefixCacheIndex` and its operations. A method returns the new state beside
-- its result.
use kraken_infer.Base.{
  ℕ, zero, suc, ◌+◌, ◌-◌, ◌%◌, Bool, true, false, not, ◌&&◌, ◌||◌, List, [], ◌∷◌, ◌++◌, Option,
  none, some, ℤ, ℤ_eq, wrap, ltb, leb, ◌==◌, if◌then◌else◌, length, drop,
}
use kraken_infer.PrefixCache.Hash.{root_hash, compute_hash, parent_hash_for, slice}

pub record Config : Type 0 where
  pub enabled : Bool
  pub block_tokens : ℕ
  pub capacity_blocks : ℕ
  pub min_reuse_tokens : ℕ

pub record Stats : Type 0 where
  pub enabled : Bool
  pub block_tokens : ℕ
  pub capacity_blocks : ℕ
  pub stored_blocks : ℕ
  pub hit_tokens : ℕ
  pub miss_tokens : ℕ
  pub committed_tokens : ℕ
  pub evicted_blocks : ℕ

pub record BlockMetadata : Type 0 where
  pub hash : ℕ
  pub parent_hash : ℕ
  pub slot : ℕ
  pub token_start : ℕ
  pub token_count : ℕ
  pub tokens : List ℤ
  pub last_used_tick : ℕ

pub record Found : Type 0 where
  pub hit_tokens : ℕ
  pub block_hashes : List ℕ

pub record Committed : Type 0 where
  pub inserted : Bool
  pub evicted : Bool
  pub hash : ℕ
  pub evicted_hash : ℕ
  pub slot : ℕ

pub record Index : Type 0 where
  pub config : Config
  pub stats : Stats
  pub blocks : List BlockMetadata
  pub tick : ℕ

abbrev pub fresh_stats : Config → Stats
fresh_stats config = record {
  enabled = config.enabled;
  block_tokens = config.block_tokens;
  capacity_blocks = config.capacity_blocks;
  stored_blocks = 0;
  hit_tokens = 0;
  miss_tokens = 0;
  committed_tokens = 0;
  evicted_blocks = 0;
}

-- The constructor.
unfoldable pub init : Config → Index
init config =
    let kept = if config.block_tokens == 0 then record config { enabled = false } else config in
    record { config = kept; stats = fresh_stats kept; blocks = []; tick = 0 }

unfoldable pub stats : Index → Stats
stats c = record (c.stats) {
  enabled = c.config.enabled;
  block_tokens = c.config.block_tokens;
  capacity_blocks = c.config.capacity_blocks;
  stored_blocks = length c.blocks;
}

unfoldable pub clear : Index → Index
clear c = record c { stats = fresh_stats c.config; blocks = []; tick = 0 }

-- `std::find_if` over the blocks.
unfoldable pub find_block : ℕ → List BlockMetadata → Option BlockMetadata
find_block hash [] = none
find_block hash (b ∷ bs) = if b.hash == hash then some b else find_block hash bs

unfoldable pub block : Index → ℕ → Option BlockMetadata
unfolding find_block
block c hash = find_block hash c.blocks

-- `metadata->last_used_tick = tick`, through the pointer that `block(hash)` returns.
unfoldable pub touch : ℕ → ℕ → List BlockMetadata → List BlockMetadata
touch hash tick [] = []
touch hash tick (b ∷ bs) =
    if b.hash == hash then record b { last_used_tick = tick } ∷ bs else b ∷ touch hash tick bs

-- `!config_.enabled || config_.block_tokens == 0 || config_.capacity_blocks == 0`.
unfoldable pub is_off : Config → Bool
is_off config = not config.enabled || config.block_tokens == 0 || config.capacity_blocks == 0

-- The comparison of the first `count` stored tokens with the prompt's; a read beyond either
-- vector counts as a difference.
unfoldable pub tokens_match : ℕ → List ℤ → List ℤ → Bool
tokens_match zero stored prompt = true
tokens_match (suc count) (s ∷ stored) (p ∷ prompt) = ℤ_eq s p && tokens_match count stored prompt
tokens_match (suc count) _ _ = false

-- The tests on one block of `lookup`, those that `break` the loop.
unfoldable pub accepts : ℕ → List ℤ → ℕ → ℕ → Option BlockMetadata → Bool
unfolding tokens_match
accepts block_tokens tokens token_start parent_hash none = false
accepts block_tokens tokens token_start parent_hash (some b) =
    b.parent_hash == parent_hash
    && b.token_count == block_tokens
    && tokens_match block_tokens b.tokens (drop token_start tokens)

-- The accepted block's part of the loop body.
unfoldable pub take_hit : Index → Found → ℕ → Index × Found
unfolding touch
take_hit c r hash =
    let tick = wrap (c.tick + 1) in
    (
      record c { blocks = touch hash tick c.blocks; tick = tick },
      record {
        hit_tokens = wrap (r.hit_tokens + c.config.block_tokens);
        block_hashes = r.block_hashes ++ hash ∷ [];
      },
    )

-- The loop of `lookup` on fuel.
unfoldable pub lookup_loop : ℕ → List ℤ → Index → Found → ℕ → ℕ → Index × Found
lookup_loop zero tokens c r token_start parent_hash = (c, r)
lookup_loop (suc fuel) tokens c r token_start parent_hash =
    let size = c.config.block_tokens in
    let hash = compute_hash size tokens token_start parent_hash in
    let (c', r') = take_hit c r hash in
    let rest = lookup_loop fuel tokens c' r' (wrap (token_start + size)) hash in
    if leb (wrap (token_start + size)) (length tokens)
      && accepts size tokens token_start parent_hash (find_block hash c.blocks)
    then rest
    else (c, r)

abbrev pub nothing_found : Found
nothing_found = record { hit_tokens = 0; block_hashes = [] }

-- The reset below `min_reuse_tokens`.
unfoldable pub enough_reuse : Config → Found → Found
enough_reuse config r = if ltb r.hit_tokens config.min_reuse_tokens then nothing_found else r

-- The counters at the end of `lookup`.
unfoldable pub count_lookup : List ℤ → Index → Found → Index
count_lookup tokens c r = record c {
  stats = record (c.stats) {
    hit_tokens = wrap (c.stats.hit_tokens + r.hit_tokens);
    miss_tokens = wrap (c.stats.miss_tokens + (length tokens - r.hit_tokens));
  };
}

-- Each round of the loop advances by at least one token.
unfoldable pub lookup : Index → List ℤ → Index × Found
lookup c tokens =
    let (c', r) = lookup_loop (suc (length tokens)) tokens c nothing_found 0 root_hash in
    let r' = enough_reuse c.config r in
    if is_off c.config
    then (count_lookup tokens c nothing_found, nothing_found)
    else (count_lookup tokens c' r', r')

-- The first block with the least tick, the `victim` of the scan; `v` is the best so far.
unfoldable pub oldest : BlockMetadata → List BlockMetadata → BlockMetadata
oldest v [] = v
oldest v (b ∷ bs) = oldest (if ltb b.last_used_tick v.last_used_tick then b else v) bs

-- `blocks_.erase(victim)`: the victim is the first block with its tick.
unfoldable pub erase_tick : ℕ → List BlockMetadata → List BlockMetadata
erase_tick tick [] = []
erase_tick tick (b ∷ bs) = if b.last_used_tick == tick then bs else b ∷ erase_tick tick bs

-- `allocate_slot`: the blocks that stay, the slot, and the evicted hash or 0. With no block and no
-- capacity the source would read a vector's end; `commit_block` is off then.
unfoldable pub allocate_slot : ℕ → List BlockMetadata → List BlockMetadata × ℕ × ℕ
unfolding oldest erase_tick
allocate_slot capacity [] = ([], 0, 0)
allocate_slot capacity (b ∷ bs) =
    let victim = oldest b bs in
    if ltb (length (b ∷ bs)) capacity
    then (b ∷ bs, length (b ∷ bs), 0)
    else (erase_tick victim.last_used_tick (b ∷ bs), victim.slot, victim.hash)

abbrev pub not_committed : Committed
not_committed = record { inserted = false; evicted = false; hash = 0; evicted_hash = 0; slot = 0 }

-- The block is there already.
unfoldable pub reuse_block : Index → BlockMetadata → ℕ → Index × Committed
unfolding touch
reuse_block c b hash =
    let tick = wrap (c.tick + 1) in
    (
      record c { blocks = touch hash tick c.blocks; tick = tick },
      record not_committed { hash = hash; slot = b.slot },
    )

-- The metadata of a new block.
abbrev pub added_block : ℕ → List ℤ → ℕ → ℕ → ℕ → ℕ → ℕ → BlockMetadata
added_block block_tokens tokens token_start parent_hash hash slot tick = record {
  hash = hash;
  parent_hash = parent_hash;
  slot = slot;
  token_start = token_start;
  token_count = block_tokens;
  tokens = slice tokens token_start block_tokens;
  last_used_tick = tick;
}

-- The block is new.
unfoldable pub insert_block : Index → List ℤ → ℕ → ℕ → ℕ → Index × Committed
insert_block c tokens token_start parent_hash hash =
    let (kept, slot, evicted_hash) = allocate_slot c.config.capacity_blocks c.blocks in
    let evicted = not (evicted_hash == 0) in
    let tick = wrap (c.tick + 1) in
    let size = c.config.block_tokens in
    let added = added_block size tokens token_start parent_hash hash slot tick in
    let counted = record (c.stats) {
      evicted_blocks =
          if evicted then wrap (c.stats.evicted_blocks + 1) else c.stats.evicted_blocks;
      committed_tokens = wrap (c.stats.committed_tokens + size);
    } in
    (
      record c { stats = counted; blocks = kept ++ added ∷ []; tick = tick },
      record {
        inserted = true;
        evicted = evicted;
        hash = hash;
        evicted_hash = evicted_hash;
        slot = slot;
      },
    )

unfoldable pub commit_at : Index → List ℤ → ℕ → ℕ → ℕ → Option BlockMetadata → Index × Committed
commit_at c tokens token_start parent_hash hash (some b) = reuse_block c b hash
commit_at c tokens token_start parent_hash hash none =
    insert_block c tokens token_start parent_hash hash

unfoldable pub commit_block : Index → List ℤ → ℕ → Index × Committed
commit_block c tokens token_start =
    let size = c.config.block_tokens in
    let parent_hash = parent_hash_for size tokens token_start in
    let hash = compute_hash size tokens token_start parent_hash in
    let done = commit_at c tokens token_start parent_hash hash (find_block hash c.blocks) in
    if is_off c.config || ltb (length tokens) (wrap (token_start + size))
    then (c, not_committed)
    else done

unfoldable pub hash_for_block : Index → List ℤ → ℕ → Option ℕ
hash_for_block c tokens token_start =
    let size = c.config.block_tokens in
    if size == 0 || ltb (length tokens) (wrap (token_start + size)) || not (token_start % size == 0)
    then none
    else some (compute_hash size tokens token_start (parent_hash_for size tokens token_start))
