-- ===== src/PrefixCache/Commit.antt =====
-- `allocate_slot` and `commit_block`: the slot is free, and the index stays valid.
use kraken_infer.Base.{
  ℕ, ◌+◌, ◌/◌, ◌≤◌, ◌<◌, ◌≡◌, refl, inl, inr, false, List, [], ◌∷◌, ◌++◌, Option, none, some, ltb,
  Bool-cases, length, drop, All, Fresh, Distinct, arith, u64_mod, wrap, All-map, All-append,
  Distinct-concat, ℤ, length-append, length-take, length-drop,
}
use kraken_infer.PrefixCache.Hash.{compute_hash, parent_hash_for, slice}
use kraken_infer.PrefixCache.Index.{
  BlockMetadata, Config, Index, find_block, oldest, allocate_slot, added_block, insert_block,
  commit_at, commit_block, reuse_block, is_off,
}
use kraken_infer.PrefixCache.Blocks.{
  find_block-Fresh, All-erase_tick, Fresh-erase_tick, Distinct-erase_tick, All-oldest,
}
use kraken_infer.PrefixCache.Victim.{Removes-victim, length-Removes, Distinct-Removes}
use kraken_infer.PrefixCache.Valid.{IsBlock, IsBlock-mono, IsValid, touch-IsValid}

abbrev kept_of : List BlockMetadata × ℕ × ℕ → List BlockMetadata
kept_of t = t.0

module _ {κ} (P : BlockMetadata → Type κ) where
  pub All-allocate_slot :
      (capacity : ℕ) (bs : List BlockMetadata) → All P bs → All P (allocate_slot capacity bs).0
  unfolding allocate_slot
  All-allocate_slot capacity [] a = tt
  All-allocate_slot capacity (b ∷ bs) a = elim (Bool-cases (ltb (length (b ∷ bs)) capacity)) [
    | inl room ↦ rw (room, allocate_slot) a
    | inr full ↦ rw (full, allocate_slot) (All-erase_tick P (oldest b bs).last_used_tick (b ∷ bs) a)
  ]

module _ (key : BlockMetadata → ℕ) where
  pub Fresh-allocate_slot :
      (n capacity : ℕ) (bs : List BlockMetadata)
      → Fresh key n bs
      → Fresh key n (allocate_slot capacity bs).0
  unfolding allocate_slot
  Fresh-allocate_slot n capacity [] f = tt
  Fresh-allocate_slot n capacity (b ∷ bs) f = elim (Bool-cases (ltb (length (b ∷ bs)) capacity)) [
    | inl room ↦ rw (room, allocate_slot) f
    | inr full ↦
        rw (full, allocate_slot) (Fresh-erase_tick key n (oldest b bs).last_used_tick (b ∷ bs) f)
  ]

  pub Distinct-allocate_slot :
      (capacity : ℕ) (bs : List BlockMetadata)
      → Distinct key bs
      → Distinct key (allocate_slot capacity bs).0
  unfolding allocate_slot
  Distinct-allocate_slot capacity [] d = tt
  Distinct-allocate_slot capacity (b ∷ bs) d = elim (Bool-cases (ltb (length (b ∷ bs)) capacity)) [
    | inl room ↦ rw (room, allocate_slot) d
    | inr full ↦
        rw (full, allocate_slot) (Distinct-erase_tick key (oldest b bs).last_used_tick (b ∷ bs) d)
  ]

Fresh-of_below :
    (n : ℕ) (bs : List BlockMetadata) → All (λ b. b.slot < n) bs → Fresh (λ b. b.slot) n bs
Fresh-of_below n [] a = tt
Fresh-of_below n (b ∷ bs) a = ((λ e. omega arith), Fresh-of_below n bs a.1)

-- The slot handed out is below the number of blocks that there will be, and no kept block has it.
pub record IsRoom (capacity : ℕ) (bs kept : List BlockMetadata) (slot : ℕ) : Type 0 where
  pub fits : length kept < capacity
  pub was : length bs ≤ length kept + 1
  pub slot_le : slot ≤ length kept
  pub slot_fresh : Fresh (λ b. b.slot) slot kept

pub allocate_slot-IsRoom :
    (capacity : ℕ) (bs : List BlockMetadata)
    → 0 < capacity
    → length bs ≤ capacity
    → All (λ b. b.slot < length bs) bs
    → Distinct (λ b. b.slot) bs
    → IsRoom capacity bs (allocate_slot capacity bs).0 (allocate_slot capacity bs).1
unfolding allocate_slot
allocate_slot-IsRoom capacity [] pos le a d = record {
  fits = pos;
  was = omega arith;
  slot_le = omega arith;
  slot_fresh = tt;
}
allocate_slot-IsRoom capacity (b ∷ bs) pos le a d =
    elim (Bool-cases (ltb (length (b ∷ bs)) capacity)) [
      | inl room ↦
          rw (room, allocate_slot)
            (record {
              fits = ground arith;
              was = omega arith;
              slot_le = omega arith;
              slot_fresh = Fresh-of_below (length (b ∷ bs)) (b ∷ bs) a;
            })
      | inr full ↦
          let r = Removes-victim b bs in
          let shorter = length-Removes r in
          let below = All-oldest (λ x. x.slot < length (b ∷ bs)) b bs a.0 a.1 in
          rw (full, allocate_slot)
            (record {
              fits = omega arith;
              was = omega arith;
              slot_le = omega arith;
              slot_fresh = Distinct-Removes (λ x. x.slot) r d;
            })
    ]

length-slice :
    (tokens : List ℤ) (start count : ℕ)
    → start + count ≤ length tokens
    → length (slice tokens start count) ≡ count
length-slice tokens start count h =
    omega (arith, length-take count (drop start tokens), length-drop start tokens)

insert_block-IsValid :
    (c : Index) (tokens : List ℤ) (start parent hash : ℕ)
    → IsValid c
    → 0 < c.config.capacity_blocks
    → c.tick + 1 < u64_mod
    → start + c.config.block_tokens ≤ length tokens
    → find_block hash c.blocks ≡ none
    → hash ≡ compute_hash c.config.block_tokens tokens start parent
    → IsValid (insert_block c tokens start parent hash).0
unfolding insert_block compute_hash
insert_block-IsValid c tokens start parent hash v pos small inside new e =
    let capacity = c.config.capacity_blocks in
    let size = c.config.block_tokens in
    let t = wrap (c.tick + 1) in
    let part = slice tokens start size in
    let kept = (allocate_slot capacity c.blocks).0 in
    let slot = (allocate_slot capacity c.blocks).1 in
    let room = allocate_slot-IsRoom capacity c.blocks pos v.bounded v.slots v.slots_distinct in
    let added = added_block size tokens start parent hash slot t in
    let sized : length (kept ++ added ∷ []) ≡ length kept + 1 =
      length-append {0} kept (added ∷ []) in
    let now : IsBlock size t added = record {
      counted = refl;
      full = length-slice tokens start size inside;
      hashed = (start / size, e);
      used = omega arith;
    } in
    let kept_slots =
      All-map (λ b. b.slot < length c.blocks) (λ b. b.slot < length (kept ++ added ∷ [])) kept
        (λ b p. omega (arith, room.was))
        (All-allocate_slot (λ b. b.slot < length c.blocks) capacity c.blocks v.slots) in
    record {
      positive = v.positive;
      bounded = (let fits = room.fits in omega arith);
      sound =
          All-append (IsBlock size t) kept (added ∷ [])
            (All-map (IsBlock size c.tick) (IsBlock size t) kept
              (λ b k. IsBlock-mono size c.tick t b (omega arith) k)
              (All-allocate_slot (IsBlock size c.tick) capacity c.blocks v.sound))
            (now, tt);
      slots =
          All-append (λ b. b.slot < length (kept ++ added ∷ [])) kept (added ∷ []) kept_slots
            (omega (arith, room.slot_le), tt);
      slots_distinct =
          Distinct-concat (λ b. b.slot) kept added
            (Distinct-allocate_slot (λ b. b.slot) capacity c.blocks v.slots_distinct)
            room.slot_fresh;
      hashes_distinct =
          Distinct-concat (λ b. b.hash) kept added
            (Distinct-allocate_slot (λ b. b.hash) capacity c.blocks v.hashes_distinct)
            (Fresh-allocate_slot (λ b. b.hash) hash capacity c.blocks
              (find_block-Fresh hash c.blocks new));
    }

commit_at-IsValid :
    (c : Index) (tokens : List ℤ) (start parent hash : ℕ) (found : Option BlockMetadata)
    → IsValid c
    → 0 < c.config.capacity_blocks
    → c.tick + 1 < u64_mod
    → start + c.config.block_tokens ≤ length tokens
    → find_block hash c.blocks ≡ found
    → hash ≡ compute_hash c.config.block_tokens tokens start parent
    → IsValid (commit_at c tokens start parent hash found).0
unfolding commit_at reuse_block
commit_at-IsValid c tokens start parent hash (some b) v pos small inside e h =
    touch-IsValid c hash v small
commit_at-IsValid c tokens start parent hash none v pos small inside e h =
    insert_block-IsValid c tokens start parent hash v pos small inside e h

pub is_off-capacity : (config : Config) → is_off config ≡ false → 0 < config.capacity_blocks
unfolding is_off
is_off-capacity config h = ground arith

-- `commit_block` keeps a valid index valid on every branch (off, block out of range, known hash, new
-- block with and without eviction), if neither the end of the block nor the tick counter wraps.
pub commit_block-IsValid :
    (c : Index) (tokens : List ℤ) (start : ℕ)
    → IsValid c
    → c.tick + 1 < u64_mod
    → start + c.config.block_tokens < u64_mod
    → IsValid (commit_block c tokens start).0
unfolding commit_block
commit_block-IsValid c tokens start v small fits =
    let size = c.config.block_tokens in
    let parent = parent_hash_for size tokens start in
    let hash = compute_hash size tokens start parent in
    elim (Bool-cases (is_off c.config)) [
      | inl off ↦ rw (off, commit_block) v
      | inr on ↦ elim (Bool-cases (ltb (length tokens) (wrap (start + size)))) [
        | inl short ↦ rw (on, short, commit_block) v
        | inr long ↦
            rw (on, long, commit_block)
              (commit_at-IsValid c tokens start parent hash _ v (is_off-capacity c.config on) small
                (ground arith) refl refl)
      ]
    ]
