-- ===== src/HostCache/Agree.antt =====
-- The index and the payload map hold the same hashes, whatever the sequence of operations.
use kraken_infer.Base.{
  ℕ, zero, suc, ◌+◌, ◌≤◌, ◌<◌, ◌≡◌, refl, ◌∙◌, inl, inr, Bool, true, false, not, ◌&&◌, List, [],
  ◌∷◌, Option, none, some, ℤ, wrap, leb, ◌==◌, if◌then◌else◌, Bool-cases, length, arith, u64_mod,
}
use kraken_infer.PrefixCache.Index.{
  Index, Found, Committed, BlockMetadata, find_block, is_off, touch, accepts, take_hit, lookup_loop,
  nothing_found, count_lookup, lookup, not_committed, commit_block, hash_for_block,
}
use kraken_infer.PrefixCache.Hash.{compute_hash, root_hash}
use kraken_infer.PrefixCache.Blocks.{find_block-touch}
use kraken_infer.PrefixCache.Valid.{IsValid}
use kraken_infer.PrefixCache.Commit.{commit_block-IsValid}
use kraken_infer.PrefixCache.Stores.{
  hash_at, CanCommit, commit_block-find_block, find_block-zero, insert_block-evicted,
}
use kraken_infer.HostCache.Host.{
  HostCache, get_payload, erase_payload, set_payload, host_lookup, store_payload,
}

abbrev pub is_some {ℓ} : {A : Type ℓ} → Option A → Bool
is_some none = false
is_some (some a) = true

module _ {Payload : Type 0} where
  get_payload-erase :
      (h k : ℕ) (m : List (ℕ × Payload))
      → get_payload h (erase_payload k m) ≡ (if k == h then none else get_payload h m)
  unfolding get_payload erase_payload
  get_payload-erase h k [] = ground arith
  get_payload-erase h k ((j, p) ∷ m) = ground (arith, get_payload-erase h k m)

  get_payload-set :
      (h k : ℕ) (p : Payload) (m : List (ℕ × Payload))
      → get_payload h (set_payload k p m) ≡ (if k == h then some p else get_payload h m)
  unfolding get_payload set_payload
  get_payload-set h k p m = ground (arith, get_payload-erase h k m)

-- A hash is stored in the index exactly when it has a payload.
abbrev pub Agree : {FilePath Payload : Type 0} → HostCache FilePath Payload → Type 0
Agree s = (h : ℕ) → is_some (find_block h s.index.blocks) ≡ is_some (get_payload h s.payloads)

find_block-is_some-touch :
    (h k t : ℕ) (bs : List BlockMetadata)
    → is_some (find_block h (touch k t bs)) ≡ is_some (find_block h bs)
find_block-is_some-touch h k t bs = ground (arith, find_block-touch h k t bs)

lookup_loop-is_some :
    (fuel : ℕ) (tokens : List ℤ) (c : Index) (r : Found) (start parent h : ℕ)
    → is_some (find_block h (lookup_loop fuel tokens c r start parent).0.blocks)
      ≡ is_some (find_block h c.blocks)
unfolding lookup_loop take_hit
lookup_loop-is_some zero tokens c r start parent h = refl
lookup_loop-is_some (suc fuel) tokens c r start parent h =
    let size = c.config.block_tokens in
    let hash = compute_hash size tokens start parent in
    let next = (take_hit c r hash).0 in
    let later =
      lookup_loop-is_some fuel tokens next (take_hit c r hash).1 (wrap (start + size)) hash h in
    elim (Bool-cases (
      leb (wrap (start + size)) (length tokens)
      && accepts size tokens start parent (find_block hash c.blocks))) [
        | inl hit ↦
            rw (hit, lookup_loop)
              (later ∙ find_block-is_some-touch h hash (wrap (c.tick + 1)) c.blocks)
        | inr miss ↦ rw (miss, lookup_loop)
      ]

-- A lookup changes neither which hashes are stored nor the payloads.
pub host_lookup-Agree :
    {FilePath Payload : Type 0} (s : HostCache FilePath Payload) (tokens : List ℤ)
    → Agree s
    → Agree (host_lookup s tokens).0
unfolding host_lookup lookup count_lookup
host_lookup-Agree s tokens a h = elim (Bool-cases (is_off s.index.config)) [
  | inl off ↦ rw (off, lookup) (a h)
  | inr on ↦
      rw (on, lookup)
        (lookup_loop-is_some (suc (length tokens)) tokens s.index nothing_found 0 root_hash h ∙ a h)
]

-- What the index and the map become at a new hash `h`, with `evicted_hash` removed.
store_payload-Agree :
    {FilePath Payload : Type 0} (s : HostCache FilePath Payload) (p : Payload) (index : Index)
    (commit : Committed)
    → Agree s
    → find_block 0 s.index.blocks ≡ none
    → commit.inserted ≡ true
    → commit.evicted ≡ not (commit.evicted_hash == 0)
    → ((k : ℕ)
        → is_some (find_block k index.blocks) ≡ (
            if commit.hash == k
            then true
            else if commit.evicted_hash == k
            then false
            else is_some (find_block k s.index.blocks)))
    → Agree (store_payload s p index commit).0
unfolding store_payload
store_payload-Agree s p index commit a z ins ev law k = ground (
  arith,
  law k,
  a k,
  a 0,
  get_payload-set k commit.hash p s.payloads,
  get_payload-set k commit.hash p (erase_payload commit.evicted_hash s.payloads),
  get_payload-erase k commit.evicted_hash s.payloads,
)

-- The invariant of the host cache.
pub record IsConsistent {FilePath Payload : Type 0} (s : HostCache FilePath Payload) : Type 0 where
  pub valid : IsValid s.index
  pub agree : Agree s

-- The block at `start` was hashed: it lies within the prompt.
pub hash_for_block-some :
    (c : Index) (tokens : List ℤ) (start : ℕ) {h : ℕ}
    → start + c.config.block_tokens < u64_mod
    → hash_for_block c tokens start ≡ some h
    → (h ≡ hash_at c tokens start) × (start + c.config.block_tokens ≤ length tokens)
unfolding hash_for_block
hash_for_block-some c tokens start small e = ground arith

commit_block_off :
    (c : Index) (tokens : List ℤ) (start : ℕ)
    → is_off c.config ≡ true
    → commit_block c tokens start ≡ (c, not_committed)
unfolding commit_block
commit_block_off c tokens start off = rw off

pub store_committed-IsConsistent :
    {FilePath Payload : Type 0} (s : HostCache FilePath Payload) (p : Payload) (tokens : List ℤ)
    (start : ℕ)
    → IsConsistent s
    → s.index.tick + 1 < u64_mod
    → length tokens < u64_mod
    → start + s.index.config.block_tokens ≤ length tokens
    → get_payload (hash_at s.index tokens start) s.payloads ≡ none
    → IsConsistent
        (store_payload s p
          (commit_block s.index tokens start).0
          (commit_block s.index tokens start).1).0
unfolding store_payload
store_committed-IsConsistent s p tokens start i ticks small inside missing =
    let c = s.index in
    let h = hash_at c tokens start in
    let new : find_block h c.blocks ≡ none = (let a = i.agree h in ground arith) in
    elim (Bool-cases (is_off c.config)) [
      | inl off ↦
          rw (commit_block_off c tokens start off, store_payload)
            (record { valid = i.valid; agree = i.agree })
      | inr on ↦
          let can : CanCommit c tokens start = record { on = on; inside = inside; small = small } in
          let law = λ (k : ℕ). commit_block-find_block c tokens start k i.valid can new in
          let done = law 0 in
          let kept = commit_block-IsValid c tokens start i.valid ticks (omega arith) in
          record {
            valid = rw (done.0, store_payload) kept;
            agree =
                store_payload-Agree s p (commit_block c tokens start).0
                  (commit_block c tokens start).1 i.agree (find_block-zero c i.valid) done.0
                  (insert_block-evicted c tokens start can new)
                  (λ k. let f = (law k).2 in let g = done.1 in ground arith);
          }
    ]
