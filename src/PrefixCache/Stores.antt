-- ===== src/PrefixCache/Stores.antt =====
-- What can be found after `commit_block`, and which block an eviction takes.
use kraken_infer.Base.{
  ℕ, zero, suc, ◌+◌, ◌≤◌, ◌<◌, ◌≡◌, refl, ◌∙◌, inl, inr, true, false, not, ◌⊎◌, List, [], ◌∷◌,
  Option, none, some, ◌==◌, ltb, if◌then◌else◌, Bool-cases, length, All, arith, u64_mod, wrap, ℤ,
  Distinct, Fresh,
}
use kraken_infer.PrefixCache.Hash.{compute_hash, parent_hash_for}
use kraken_infer.PrefixCache.Index.{
  BlockMetadata, Index, find_block, oldest, allocate_slot, added_block, insert_block, commit_at,
  commit_block, is_off,
}
use kraken_infer.PrefixCache.Blocks.{find_block-append, All-oldest}
use kraken_infer.PrefixCache.Victim.{
  Removes-victim, find_block-Removes, find_block-Removes_self, find_block_of_Fresh, oldest-le,
}
use kraken_infer.PrefixCache.Commit.{is_off-capacity}
use kraken_infer.PrefixCache.Valid.{IsBlock, IsBlock-ne-zero, IsValid}

-- The hash under which `commit_block` stores the block at `start`.
abbrev pub hash_at : Index → List ℤ → ℕ → ℕ
hash_at c tokens start =
    compute_hash c.config.block_tokens tokens start
      (parent_hash_for c.config.block_tokens tokens start)

-- The block at `start` lies within the prompt and the index is on.
pub record CanCommit (c : Index) (tokens : List ℤ) (start : ℕ) : Type 0 where
  pub on : is_off c.config ≡ false
  pub inside : start + c.config.block_tokens ≤ length tokens
  pub small : length tokens < u64_mod

pub commit_block-commit_at :
    (c : Index) (tokens : List ℤ) (start : ℕ)
    → CanCommit c tokens start
    → commit_block c tokens start
      ≡ commit_at c tokens start
          (parent_hash_for c.config.block_tokens tokens start)
          (hash_at c tokens start)
          (find_block (hash_at c tokens start) c.blocks)
unfolding commit_block
commit_block-commit_at c tokens start can =
    let long : ltb (length tokens) (wrap (start + c.config.block_tokens)) ≡ false =
      (let a = can.inside in let b = can.small in ground arith) in
    rw (can.on, long, commit_block)

Fresh-zero :
    (size tick : ℕ) (bs : List BlockMetadata)
    → All (IsBlock size tick) bs
    → Fresh (λ b. b.hash) 0 bs
Fresh-zero size tick [] a = tt
Fresh-zero size tick (b ∷ bs) a = (IsBlock-ne-zero size tick b a.0, Fresh-zero size tick bs a.1)

-- Making room hides the evicted hash and nothing else; the evicted hash is 0 if nothing was.
allocate_slot-find_block :
    (k size tick capacity : ℕ) (bs : List BlockMetadata)
    → All (IsBlock size tick) bs
    → Distinct (λ b. b.hash) bs
    → find_block k (allocate_slot capacity bs).0
      ≡ (if (allocate_slot capacity bs).2 == k then none else find_block k bs)
unfolding allocate_slot
allocate_slot-find_block k size tick capacity [] a d = unfold find_block in ground arith
allocate_slot-find_block k size tick capacity (b ∷ bs) a d =
    elim (Bool-cases (ltb (length (b ∷ bs)) capacity)) [
      | inl room ↦
          let missing = find_block_of_Fresh 0 (b ∷ bs) (Fresh-zero size tick (b ∷ bs) a) in
          rw (room, allocate_slot) (zero-case k (b ∷ bs) missing)
      | inr full ↦ rw (full, allocate_slot) (find_block-Removes k (Removes-victim b bs) d)
    ]
  where
    zero-case :
        (k : ℕ) (bs : List BlockMetadata)
        → find_block 0 bs ≡ none
        → find_block k bs ≡ (if 0 == k then none else find_block k bs)
    zero-case zero bs e = e
    zero-case (suc k) bs e = ground arith

Option-else {ℓ} :
    {A : Type ℓ} {x : Option A} (o d : Option A)
    → d ≡ none
    → o ≡ x
    → elim o [ none ↦ d | some b ↦ some b ] ≡ x
Option-else none d h e = h ∙ e
Option-else (some b) d h e = e

insert_block-find_block :
    (c : Index) (tokens : List ℤ) (start parent hash k : ℕ)
    → IsValid c
    → find_block hash c.blocks ≡ none
    → find_block k (insert_block c tokens start parent hash).0.blocks ≡ (
        if hash == k
        then some (
            added_block c.config.block_tokens tokens start parent hash
              (insert_block c tokens start parent hash).1.slot
              (wrap (c.tick + 1)))
        else if (insert_block c tokens start parent hash).1.evicted_hash == k
        then none
        else find_block k c.blocks)
unfolding insert_block
insert_block-find_block c tokens start parent hash k v new =
    let size = c.config.block_tokens in
    let capacity = c.config.capacity_blocks in
    let kept = (allocate_slot capacity c.blocks).0 in
    let slot = (allocate_slot capacity c.blocks).1 in
    let added = added_block size tokens start parent hash slot (wrap (c.tick + 1)) in
    let room = allocate_slot-find_block k size c.tick capacity c.blocks v.sound v.hashes_distinct in
    elim (Bool-cases (hash == k)) [
      | inl same ↦
          let e : hash ≡ k = ground arith in
          let missing : find_block k c.blocks ≡ none = rw (← e) new in
          let gone : find_block k kept ≡ none = ground arith in
          rw find_block-append (rw (gone, same) (unfold find_block in rw same))
      | inr other ↦
          let alone : find_block k (added ∷ []) ≡ none = (unfold find_block in rw other) in
          rw find_block-append (rw other (Option-else (find_block k kept) _ alone room))
    ]

-- A commit to a valid index that is on, of a block that lies within the prompt and whose hash is
-- new: it reports an insertion under that hash, the block is then found under it, the evicted block
-- is not found any more, and the search for any other hash answers as before.
pub commit_block-find_block :
    (c : Index) (tokens : List ℤ) (start k : ℕ)
    → IsValid c
    → CanCommit c tokens start
    → find_block (hash_at c tokens start) c.blocks ≡ none
    → ((commit_block c tokens start).1.inserted ≡ true)
      × ((commit_block c tokens start).1.hash ≡ hash_at c tokens start)
      × (find_block k (commit_block c tokens start).0.blocks ≡ (
          if hash_at c tokens start == k
          then some (
              added_block c.config.block_tokens tokens start
                (parent_hash_for c.config.block_tokens tokens start)
                (hash_at c tokens start)
                (commit_block c tokens start).1.slot
                (wrap (c.tick + 1)))
          else if (commit_block c tokens start).1.evicted_hash == k
          then none
          else find_block k c.blocks))
unfolding commit_at insert_block
commit_block-find_block c tokens start k v can new =
    let parent = parent_hash_for c.config.block_tokens tokens start in
    let hash = hash_at c tokens start in
    rw (commit_block-commit_at c tokens start can, new, commit_at)
      (refl, refl, insert_block-find_block c tokens start parent hash k v new)

-- The victim of an eviction is a stored block, and no stored block was used less recently.
pub record IsOldest (bs : List BlockMetadata) (evicted_hash slot : ℕ) : Type 0 where
  pub victim : BlockMetadata
  pub is_stored : find_block evicted_hash bs ≡ some victim
  pub slot_is : victim.slot ≡ slot
  pub least : All (λ b. victim.last_used_tick ≤ b.last_used_tick) bs

find_block-oldest :
    (v : BlockMetadata) (bs : List BlockMetadata)
    → Distinct (λ b. b.hash) (v ∷ bs)
    → find_block (oldest v bs).hash (v ∷ bs) ≡ some (oldest v bs)
find_block-oldest v bs d = find_block-Removes_self (Removes-victim v bs) d

allocate_slot_evicts :
    (size tick capacity : ℕ) (bs : List BlockMetadata)
    → 0 < capacity
    → length bs ≤ capacity
    → All (IsBlock size tick) bs
    → Distinct (λ b. b.hash) bs
    → (not ((allocate_slot capacity bs).2 == 0) ≡ false)
        × (length bs < capacity)
        × ((allocate_slot capacity bs).1 ≡ length bs)
      ⊎ (not ((allocate_slot capacity bs).2 == 0) ≡ true)
        × (length bs ≡ capacity)
        × IsOldest bs (allocate_slot capacity bs).2 (allocate_slot capacity bs).1
unfolding allocate_slot
allocate_slot_evicts size tick capacity [] pos le a d = inl (refl, pos, refl)
allocate_slot_evicts size tick capacity (b ∷ bs) pos le a d =
    elim (Bool-cases (ltb (length (b ∷ bs)) capacity)) [
      | inl room ↦ rw (room, allocate_slot) (inl (refl, ground arith, refl))
      | inr full ↦
          let victim = All-oldest (IsBlock size tick) b bs a.0 a.1 in
          let live = IsBlock-ne-zero size tick (oldest b bs) victim in
          rw (full, allocate_slot)
            (inr (
              ground arith,
              ground arith,
              record {
                victim = oldest b bs;
                is_stored = find_block-oldest b bs d;
                slot_is = refl;
                least = oldest-le (oldest b bs).last_used_tick b bs refl;
              },
            ))
    ]

-- A commit to a valid index that is on, of a block that lies within the prompt and whose hash is
-- new: below capacity nothing is evicted and the slot is the number of blocks; at capacity the
-- evicted block is a stored one whose `last_used_tick` no other undercuts, and its slot is reused.
pub commit_block-evicts :
    (c : Index) (tokens : List ℤ) (start : ℕ)
    → IsValid c
    → CanCommit c tokens start
    → find_block (hash_at c tokens start) c.blocks ≡ none
    → ((commit_block c tokens start).1.evicted ≡ false)
        × (length c.blocks < c.config.capacity_blocks)
        × ((commit_block c tokens start).1.slot ≡ length c.blocks)
      ⊎ ((commit_block c tokens start).1.evicted ≡ true)
        × (length c.blocks ≡ c.config.capacity_blocks)
        × IsOldest c.blocks
            (commit_block c tokens start).1.evicted_hash
            (commit_block c tokens start).1.slot
unfolding commit_at insert_block
commit_block-evicts c tokens start v can new =
    rw (commit_block-commit_at c tokens start can, new, commit_at)
      (allocate_slot_evicts c.config.block_tokens c.tick c.config.capacity_blocks c.blocks
        (is_off-capacity c.config can.on) v.bounded v.sound v.hashes_distinct)

-- The hash 0 is stored by no block.
pub find_block-zero : (c : Index) → IsValid c → find_block 0 c.blocks ≡ none
find_block-zero c v =
    find_block_of_Fresh 0 c.blocks (Fresh-zero c.config.block_tokens c.tick c.blocks v.sound)

pub insert_block-evicted :
    (c : Index) (tokens : List ℤ) (start : ℕ)
    → CanCommit c tokens start
    → find_block (hash_at c tokens start) c.blocks ≡ none
    → (commit_block c tokens start).1.evicted
      ≡ not ((commit_block c tokens start).1.evicted_hash == 0)
unfolding commit_at insert_block
insert_block-evicted c tokens start can new =
    rw (commit_block-commit_at c tokens start can, new, commit_at)
