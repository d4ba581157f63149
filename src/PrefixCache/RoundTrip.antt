-- ===== src/PrefixCache/RoundTrip.antt =====
-- Committing the blocks of a prompt and looking the prompt up again.
use kraken_infer.Base.{ℕ, zero, suc, ◌+◌, ◌*◌, ◌≤◌, ◌≡◌, refl, sym, ap, ◌∙◌, List, arith, ℤ}
use mathlib.Core.Path.{subst}
use kraken_infer.PrefixCache.Chain.{parent_hash_for-suc}
use kraken_infer.PrefixCache.Hash.{parent_hash_for, root_hash}
use kraken_infer.PrefixCache.Index.{Config, Index, commit_block, lookup}
use kraken_infer.PrefixCache.Valid.{IsValid}
use kraken_infer.PrefixCache.Lookup.{IsStored, Stored}
use kraken_infer.PrefixCache.Commit.{commit_block-IsValid}
use kraken_infer.PrefixCache.Stores.{hash_at}
use kraken_infer.PrefixCache.Longest.{lookup-FindsLongest, FindsLongest-ge, is_off-block_tokens}
use kraken_infer.PrefixCache.Room.{
  commit_blocks, new_block, commit_block_room, IsStored-append, find_block-concat_self, CanStore,
  CanStore-CanCommit, CanStore-step,
}

-- A stored block stays stored through commits of blocks with other hashes.
commit_blocks-IsStored :
    (count : ℕ) (c : Index) (tokens : List ℤ) (number size start parent h : ℕ)
    → CanStore c tokens number count
    → IsStored c.blocks size tokens start parent h
    → IsStored (commit_blocks c tokens number count).blocks size tokens start parent h
unfolding commit_blocks
commit_blocks-IsStored zero c tokens number size start parent h s one = one
commit_blocks-IsStored (suc count) c tokens number size start parent h s one =
    let at = number * c.config.block_tokens in
    let r =
      commit_block_room c tokens at (CanStore-CanCommit c tokens number count s) s.unused.0
        (omega arith) in
    commit_blocks-IsStored count (commit_block c tokens at).0 tokens (suc number) size start parent
      h (CanStore-step c tokens number count s)
      (rw r.0 (IsStored-append c.blocks (new_block c tokens at) size tokens start parent h one))

commit_blocks-IsStored_self :
    (count : ℕ) (c : Index) (tokens : List ℤ) (number : ℕ)
    → CanStore c tokens number (suc count)
    → IsStored
        (commit_blocks c tokens number (suc count)).blocks
        c.config.block_tokens
        tokens
        (number * c.config.block_tokens)
        (parent_hash_for c.config.block_tokens tokens (number * c.config.block_tokens))
        (hash_at c tokens (number * c.config.block_tokens))
unfolding commit_blocks
commit_blocks-IsStored_self count c tokens number s =
    let size = c.config.block_tokens in
    let at = number * size in
    let r =
      commit_block_room c tokens at (CanStore-CanCommit c tokens number count s) s.unused.0
        (omega arith) in
    commit_blocks-IsStored count (commit_block c tokens at).0 tokens (suc number) size at _ _
      (CanStore-step c tokens number count s)
      (record {
        found = new_block c tokens at;
        is_found = rw r.0 (find_block-concat_self c.blocks (new_block c tokens at) s.unused.0);
        parent_is = refl;
        tokens_are = refl;
      })

-- Blocks committed in order are stored as a chain.
commit_blocks-Stored :
    (count : ℕ) (c : Index) (tokens : List ℤ) (number size : ℕ)
    → size ≡ c.config.block_tokens
    → CanStore c tokens number count
    → Stored
        (commit_blocks c tokens number count).blocks
        size
        tokens
        (number * size)
        (parent_hash_for size tokens (number * size))
        count
unfolding commit_blocks
commit_blocks-Stored zero c tokens number size e s = tt
commit_blocks-Stored (suc count) c tokens number size e s =
    let cs = c.config.block_tokens in
    let at = number * cs in
    let r =
      commit_block_room c tokens at (CanStore-CanCommit c tokens number count s) s.unused.0
        (omega arith) in
    let later =
      commit_blocks-Stored count (commit_block c tokens at).0 tokens (suc number) cs
        (sym (ap (λ (k : Config). k.block_tokens) r.2)) (CanStore-step c tokens number count s) in
    let boundary : suc number * cs ≡ number * cs + cs = omega arith in
    let parent = parent_hash_for-suc cs tokens number (is_off-block_tokens c s.on) (omega arith) in
    subst
      (λ n.
        Stored (commit_blocks c tokens number (suc count)).blocks n tokens (number * n)
          (parent_hash_for n tokens (number * n)) (suc count))
      (sym e)
      (
        omega arith,
        commit_blocks-IsStored_self count c tokens number s,
        rw (parent, boundary) at later,
      )

commit_blocks-IsValid :
    (count : ℕ) (c : Index) (tokens : List ℤ) (number : ℕ)
    → IsValid c
    → CanStore c tokens number count
    → IsValid (commit_blocks c tokens number count)
unfolding commit_blocks
commit_blocks-IsValid zero c tokens number v s = v
commit_blocks-IsValid (suc count) c tokens number v s =
    let at = number * c.config.block_tokens in
    commit_blocks-IsValid count (commit_block c tokens at).0 tokens (suc number)
      (commit_block-IsValid c tokens at v (omega arith) (omega arith))
      (CanStore-step c tokens number count s)

commit_blocks-config :
    (count : ℕ) (c : Index) (tokens : List ℤ) (number : ℕ)
    → CanStore c tokens number count
    → (commit_blocks c tokens number count).config ≡ c.config
unfolding commit_blocks
commit_blocks-config zero c tokens number s = refl
commit_blocks-config (suc count) c tokens number s =
    let at = number * c.config.block_tokens in
    let r =
      commit_block_room c tokens at (CanStore-CanCommit c tokens number count s) s.unused.0
        (omega arith) in
    commit_blocks-config count (commit_block c tokens at).0 tokens (suc number)
      (CanStore-step c tokens number count s)
    ∙ r.2

-- The first blocks of the prompt were committed in order.
commit_blocks-Stored_start :
    (count : ℕ) (c : Index) (tokens : List ℤ)
    → CanStore c tokens 0 count
    → Stored (commit_blocks c tokens 0 count).blocks c.config.block_tokens tokens 0 root_hash count
unfolding parent_hash_for
commit_blocks-Stored_start count c tokens s =
    let size = c.config.block_tokens in
    let none_yet : 0 * size ≡ 0 = omega arith in
    rw none_yet at (commit_blocks-Stored count c tokens 0 size refl s)

-- After the first `count` blocks of a prompt are committed in order to a valid index that is on, a
-- lookup of the prompt reports at least the tokens of those blocks. The conditions: the prompt has
-- the blocks, no size or tick wraps, the index has room without eviction, the blocks' hashes are new
-- to it and distinct, and the blocks reach `min_reuse_tokens`.
pub lookup-commit_blocks :
    (count : ℕ) (c : Index) (tokens : List ℤ)
    → IsValid c
    → CanStore c tokens 0 count
    → c.config.min_reuse_tokens ≤ count * c.config.block_tokens
    → count * c.config.block_tokens ≤ (lookup (commit_blocks c tokens 0 count) tokens).1.hit_tokens
lookup-commit_blocks count c tokens v s reuse =
    let d = commit_blocks c tokens 0 count in
    let size = c.config.block_tokens in
    let same = commit_blocks-config count c tokens 0 s in
    let stored = commit_blocks-Stored_start count c tokens s in
    let found =
      lookup-FindsLongest d tokens (commit_blocks-IsValid count c tokens 0 v s) (rw same s.on)
        (rw same s.small) in
    subst (λ (k : Config). count * k.block_tokens ≤ (lookup d tokens).1.hit_tokens) same
      (FindsLongest-ge d tokens (lookup d tokens).1 count found
        (subst (λ (k : Config). Stored d.blocks k.block_tokens tokens 0 root_hash count) (sym same)
          stored)
        (rw same reuse))
