-- ===== src/PrefixCache/Chain.antt =====
-- The hash chain: `parent_hash_for` at a block boundary is the hash of the block before it.
use kraken_infer.Base.{
  ℕ, zero, suc, ◌+◌, ◌*◌, ◌≤◌, ◌<◌, ◌≡◌, refl, ap, ◌∙◌, List, ℤ, false, true, ltb, wrap, wrap_lem,
  u64_mod, arith,
}
use kraken_infer.PrefixCache.Hash.{root_hash, compute_hash, parent_hash_loop, parent_hash_for}

-- The hash after `count` blocks from `start` on.
pub parent_at : ℕ → List ℤ → ℕ → ℕ → ℕ → ℕ
parent_at size tokens start parent zero = parent
parent_at size tokens start parent (suc count) =
    parent_at size tokens (start + size) (compute_hash size tokens start parent) count

parent_at-suc :
    (size : ℕ) (tokens : List ℤ) (start parent count : ℕ)
    → parent_at size tokens start parent (suc count)
      ≡ compute_hash size tokens (start + count * size) (parent_at size tokens start parent count)
unfolding parent_at
parent_at-suc size tokens start parent zero =
    let e : start ≡ start + 0 * size = omega arith in ap (λ s. compute_hash size tokens s parent) e
parent_at-suc size tokens start parent (suc count) =
    let h = compute_hash size tokens start parent in
    let e : start + size + count * size ≡ start + suc count * size = omega arith in
    parent_at-suc size tokens (start + size) h count
    ∙ ap (λ s. compute_hash size tokens s (parent_at size tokens (start + size) h count)) e

parent_hash_loop-parent_at :
    (fuel size : ℕ) (tokens : List ℤ) (start parent count goal : ℕ)
    → 0 < size
    → goal ≡ start + count * size
    → count ≤ fuel
    → goal < u64_mod
    → parent_hash_loop fuel size tokens goal start parent ≡ parent_at size tokens start parent count
unfolding parent_hash_loop parent_at
parent_hash_loop-parent_at zero size tokens start parent zero goal pos e le small = refl
parent_hash_loop-parent_at zero size tokens start parent (suc count) goal pos e le small =
    absurd (omega arith)
parent_hash_loop-parent_at (suc fuel) size tokens start parent zero goal pos e le small =
    let done : ltb start goal ≡ false = ground arith in rw done
parent_hash_loop-parent_at (suc fuel) size tokens start parent (suc count) goal pos e le small =
    let h = compute_hash size tokens start parent in
    let e' : goal ≡ start + size + count * size = omega arith in
    let more : ltb start goal ≡ true = ground arith in
    let same : wrap (start + size) ≡ start + size = wrap_lem (start + size) (omega arith) in
    rw (more, same)
      (parent_hash_loop-parent_at fuel size tokens (start + size) h count goal pos e' (omega arith)
        small)

pub parent_hash_for-parent_at :
    (size : ℕ) (tokens : List ℤ) (count : ℕ)
    → 0 < size
    → count * size < u64_mod
    → parent_hash_for size tokens (count * size) ≡ parent_at size tokens 0 root_hash count
unfolding parent_hash_for
parent_hash_for-parent_at size tokens count pos small =
    parent_hash_loop-parent_at (count * size) size tokens 0 root_hash count (count * size) pos
      (omega arith) (grind arith) small

-- The parent of a block is the hash of the block before it.
pub parent_hash_for-suc :
    (size : ℕ) (tokens : List ℤ) (count : ℕ)
    → 0 < size
    → suc count * size < u64_mod
    → parent_hash_for size tokens (suc count * size)
      ≡ compute_hash size tokens (count * size) (parent_hash_for size tokens (count * size))
parent_hash_for-suc size tokens count pos small =
    let e : 0 + count * size ≡ count * size = omega arith in
    parent_hash_for-parent_at size tokens (suc count) pos small
    ∙ parent_at-suc size tokens 0 root_hash count
    ∙ rw (e, parent_hash_for-parent_at size tokens count pos (omega arith))
