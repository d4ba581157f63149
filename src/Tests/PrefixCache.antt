-- ===== src/Tests/PrefixCache.antt =====
-- The prefix cache at small prompts, in the manner of tests/smoke_test.cpp.
use kraken_infer.Base.{
  ◌+◌, ◌*◌, ◌≤◌, ◌<◌, ◌≡◌, ◌⊎◌, refl, true, false, List, [], ◌∷◌, none, some, ℤ, pos, negsuc, ◌==◌,
  if◌then◌else◌, length, arith,
}
use kraken_infer.PrefixCache.Hash.{compute_hash, parent_hash_for}
use kraken_infer.PrefixCache.Index.{
  Config, Index, init, find_block, touch, is_off, accepts, take_hit, lookup_loop, enough_reuse,
  count_lookup, lookup, allocate_slot, insert_block, reuse_block, commit_at, commit_block,
  hash_for_block, added_block,
}
use kraken_infer.PrefixCache.Valid.{IsValid, init-IsValid, lookup-IsValid}
use kraken_infer.PrefixCache.Commit.{commit_block-IsValid}
use kraken_infer.PrefixCache.Longest.{FindsLongest, lookup-FindsLongest, lookup-counts}
use kraken_infer.PrefixCache.Stores.{
  hash_at, CanCommit, IsOldest, commit_block-find_block, commit_block-evicts,
}
use kraken_infer.PrefixCache.Room.{commit_blocks}
use kraken_infer.PrefixCache.RoundTrip.{lookup-commit_blocks}

program : Unit {0}
unfolding init compute_hash parent_hash_for find_block touch is_off accepts take_hit lookup_loop
    enough_reuse count_lookup lookup allocate_slot insert_block reuse_block commit_at commit_block
    hash_for_block
program = tt

-- Blocks of two tokens and room for one.
abbrev narrow : Config
narrow = record { enabled = true; block_tokens = 2; capacity_blocks = 1; min_reuse_tokens = 0 }

abbrev wide : Config
wide = record { enabled = true; block_tokens = 2; capacity_blocks = 4; min_reuse_tokens = 2 }

abbrev prompt : List ℤ
prompt = pos 11 ∷ pos 12 ∷ pos 13 ∷ negsuc 0 ∷ pos 15 ∷ []

abbrev one : Index
one = (commit_block (init narrow) prompt 0).0

init-narrow-IsValid : IsValid (init narrow)
init-narrow-IsValid = init-IsValid narrow

one-IsValid : IsValid one
unfolding init
one-IsValid =
    commit_block-IsValid (init narrow) prompt 0 init-narrow-IsValid (omega arith) (omega arith)

one-CanCommit : CanCommit one prompt 2
unfolding program
one-CanCommit = record { on = refl; inside = omega arith; small = omega arith }

-- The second block is not found without the first, which it evicted.
lookup_after_eviction :
    ((lookup one prompt).1.hit_tokens ≡ 2)
    × ((lookup (commit_block one prompt 2).0 prompt).1.hit_tokens ≡ 0)
unfolding program
lookup_after_eviction = (refl, refl)

commit_block-IsValid_example : IsValid (commit_block one prompt 2).0
unfolding program
commit_block-IsValid_example =
    commit_block-IsValid one prompt 2 one-IsValid (omega arith) (omega arith)

lookup-IsValid_example : IsValid (lookup one prompt).0
unfolding program
lookup-IsValid_example = lookup-IsValid one prompt one-IsValid (omega arith)

lookup-FindsLongest_example : FindsLongest one prompt (lookup one prompt).1
unfolding program
lookup-FindsLongest_example = lookup-FindsLongest one prompt one-IsValid refl (omega arith)

lookup-counts_example :
    ((lookup one prompt).0.stats.hit_tokens
      ≡ one.stats.hit_tokens + (lookup one prompt).1.hit_tokens)
    × ((lookup one prompt).0.stats.hit_tokens + (lookup one prompt).0.stats.miss_tokens
        ≡ one.stats.hit_tokens + one.stats.miss_tokens + 5)
unfolding program
lookup-counts_example =
    lookup-counts one prompt one-IsValid (omega arith) (omega arith) (omega arith)

commit_block-find_block_example :
    ((commit_block one prompt 2).1.inserted ≡ true)
    × ((commit_block one prompt 2).1.hash ≡ hash_at one prompt 2)
    × (find_block 7 (commit_block one prompt 2).0.blocks ≡ (
        if hash_at one prompt 2 == 7
        then some (
            added_block 2 prompt 2
              (parent_hash_for 2 prompt 2)
              (hash_at one prompt 2)
              (commit_block one prompt 2).1.slot
              2)
        else if (commit_block one prompt 2).1.evicted_hash == 7
        then none
        else find_block 7 one.blocks))
unfolding program
commit_block-find_block_example =
    commit_block-find_block one prompt 2 7 one-IsValid one-CanCommit refl

commit_block-evicts_example :
    ((commit_block one prompt 2).1.evicted ≡ false)
      × (length one.blocks < one.config.capacity_blocks)
      × ((commit_block one prompt 2).1.slot ≡ length one.blocks)
    ⊎ ((commit_block one prompt 2).1.evicted ≡ true)
      × (length one.blocks ≡ one.config.capacity_blocks)
      × IsOldest one.blocks
          (commit_block one prompt 2).1.evicted_hash
          (commit_block one prompt 2).1.slot
unfolding program
commit_block-evicts_example = commit_block-evicts one prompt 2 one-IsValid one-CanCommit refl

lookup-commit_blocks_example :
    2 * 2 ≤ (lookup (commit_blocks (init wide) prompt 0 2) prompt).1.hit_tokens
unfolding program
lookup-commit_blocks_example =
    lookup-commit_blocks 2 (init wide) prompt (init-IsValid wide)
      (record {
        on = refl;
        inside = omega arith;
        small = omega arith;
        ticks = omega arith;
        room = omega arith;
        unused = (refl, (refl, tt));
        distinct = (((λ e. omega arith), tt), (tt, tt));
      })
      (omega arith)
