-- ===== src/PrefixCache/Room.antt =====
-- Commits of the blocks of a prompt, one after the other, to an index with room.
use kraken_infer.Base.{
  ℕ, zero, suc, ◌+◌, ◌*◌, ◌≤◌, ◌<◌, ◌≡◌, ◌≢◌, refl, sym, true, false, List, [], ◌∷◌, ◌++◌, none,
  some, length, All, Fresh, Distinct, arith, ltb, length-append, u64_mod, wrap, ℤ,
}
use mathlib.Core.Path.{subst}
use kraken_infer.PrefixCache.Chain.{parent_hash_for-suc}
use kraken_infer.PrefixCache.Hash.{compute_hash, parent_hash_for}
use kraken_infer.PrefixCache.Index.{
  BlockMetadata, Index, find_block, added_block, allocate_slot, insert_block, commit_at,
  commit_block, is_off,
}
use kraken_infer.PrefixCache.Blocks.{find_block-append}
use kraken_infer.PrefixCache.Lookup.{IsStored, chain}
use kraken_infer.PrefixCache.Stores.{hash_at, CanCommit, commit_block-commit_at}
use kraken_infer.PrefixCache.Longest.{is_off-block_tokens}

-- `commit_block` at the next `count` block boundaries, from block `number` on.
unfoldable pub commit_blocks : Index → List ℤ → ℕ → ℕ → Index
commit_blocks c tokens number zero = c
commit_blocks c tokens number (suc count) =
    commit_blocks (commit_block c tokens (number * c.config.block_tokens)).0 tokens (suc number)
      count

-- The block that a commit at `start` appends to an index with room.
abbrev pub new_block : Index → List ℤ → ℕ → BlockMetadata
new_block c tokens start =
    added_block c.config.block_tokens tokens start
      (parent_hash_for c.config.block_tokens tokens start) (hash_at c tokens start)
      (length c.blocks) (wrap (c.tick + 1))

allocate_slot_room :
    (capacity : ℕ) (bs : List BlockMetadata)
    → length bs < capacity
    → allocate_slot capacity bs ≡ (bs, length bs, 0)
unfolding allocate_slot
allocate_slot_room capacity [] room = refl
allocate_slot_room capacity (b ∷ bs) room =
    let e : ltb (length (b ∷ bs)) capacity ≡ true = ground arith in rw (e, allocate_slot)

pub commit_block_room :
    (c : Index) (tokens : List ℤ) (start : ℕ)
    → CanCommit c tokens start
    → find_block (hash_at c tokens start) c.blocks ≡ none
    → length c.blocks < c.config.capacity_blocks
    → ((commit_block c tokens start).0.blocks ≡ c.blocks ++ new_block c tokens start ∷ [])
      × ((commit_block c tokens start).0.tick ≡ wrap (c.tick + 1))
      × ((commit_block c tokens start).0.config ≡ c.config)
unfolding commit_at insert_block
commit_block_room c tokens start can new room =
    rw (commit_block-commit_at c tokens start can, new, commit_at)
      (rw (allocate_slot_room c.config.capacity_blocks c.blocks room) (refl, refl, refl))

-- A stored block stays stored when a block is appended.
pub IsStored-append :
    (bs : List BlockMetadata) (b : BlockMetadata) (size : ℕ) (tokens : List ℤ) (start parent h : ℕ)
    → IsStored bs size tokens start parent h
    → IsStored (bs ++ b ∷ []) size tokens start parent h
IsStored-append bs b size tokens start parent h s = record {
  found = s.found;
  is_found = rw (find_block-append, s.is_found);
  parent_is = s.parent_is;
  tokens_are = s.tokens_are;
}

find_block-concat_ne :
    (h : ℕ) (bs : List BlockMetadata) (b : BlockMetadata)
    → find_block h bs ≡ none
    → b.hash ≢ h
    → find_block h (bs ++ b ∷ []) ≡ none
unfolding find_block
find_block-concat_ne h bs b e ne = rw (find_block-append, e) (ground arith)

pub find_block-concat_self :
    (bs : List BlockMetadata) (b : BlockMetadata)
    → find_block b.hash bs ≡ none
    → find_block b.hash (bs ++ b ∷ []) ≡ some b
unfolding find_block
find_block-concat_self bs b e = rw (find_block-append, e) (ground arith)

-- None of the hashes is in use.
abbrev pub Unused : List BlockMetadata → List ℕ → Type 0
Unused bs hs = All (λ h. find_block h bs ≡ none) hs

Unused-append :
    (bs : List BlockMetadata) (b : BlockMetadata) (hs : List ℕ)
    → Unused bs hs
    → Fresh (λ h. h) b.hash hs
    → Unused (bs ++ b ∷ []) hs
Unused-append bs b [] u f = tt
Unused-append bs b (h ∷ hs) u f =
    (find_block-concat_ne h bs b u.0 (λ e. f.0 (sym e)), Unused-append bs b hs u.1 f.1)

-- The hashes of the blocks from `number` on.
abbrev pub hashes_from : ℕ → List ℤ → ℕ → ℕ → List ℕ
hashes_from size tokens number count =
    chain size tokens (number * size) (parent_hash_for size tokens (number * size)) count

hashes_from-suc :
    (size : ℕ) (tokens : List ℤ) (number count : ℕ)
    → 0 < size
    → suc number * size < u64_mod
    → hashes_from size tokens number (suc count)
      ≡ compute_hash size tokens (number * size) (parent_hash_for size tokens (number * size))
        ∷ hashes_from size tokens (suc number) count
hashes_from-suc size tokens number count pos small =
    let e : suc number * size ≡ number * size + size = omega arith in
    rw (parent_hash_for-suc size tokens number pos small, e)

-- The index is on and has room for `count` more blocks of the prompt, from block `number` on; the
-- hashes of those blocks are not in use and differ.
pub record CanStore (c : Index) (tokens : List ℤ) (number count : ℕ) : Type 0 where
  pub on : is_off c.config ≡ false
  pub inside : (number + count) * c.config.block_tokens ≤ length tokens
  pub small : length tokens + c.config.block_tokens < u64_mod
  pub ticks : c.tick + count < u64_mod
  pub room : length c.blocks + count ≤ c.config.capacity_blocks
  pub unused : Unused c.blocks (hashes_from c.config.block_tokens tokens number count)
  pub distinct : Distinct (λ h. h) (hashes_from c.config.block_tokens tokens number count)

pub CanStore-CanCommit :
    (c : Index) (tokens : List ℤ) (number count : ℕ)
    → CanStore c tokens number (suc count)
    → CanCommit c tokens (number * c.config.block_tokens)
CanStore-CanCommit c tokens number count s = record {
  on = s.on;
  inside = omega arith;
  small = omega arith;
}

pub CanStore-step :
    (c : Index) (tokens : List ℤ) (number count : ℕ)
    → CanStore c tokens number (suc count)
    → CanStore (commit_block c tokens (number * c.config.block_tokens)).0 tokens (suc number) count
CanStore-step c tokens number count s =
    let size = c.config.block_tokens in
    let r =
      commit_block_room c tokens (number * size) (CanStore-CanCommit c tokens number count s)
        s.unused.0 (omega arith) in
    let split =
      hashes_from-suc size tokens number count (is_off-block_tokens c s.on) (omega arith) in
    let unused = subst (Unused c.blocks) split s.unused in
    let distinct = subst (Distinct (λ h. h)) split s.distinct in
    record {
      on = rw r.2 s.on;
      inside = rw r.2 (omega arith);
      small = rw r.2 s.small;
      ticks = rw r.1 (omega arith);
      room = rw (r.0, r.2, length-append) (omega arith);
      unused =
          rw (r.0, r.2)
            (Unused-append c.blocks (new_block c tokens (number * size)) _ unused.1 distinct.0);
      distinct = rw r.2 distinct.1;
    }
