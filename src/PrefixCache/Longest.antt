-- ===== src/PrefixCache/Longest.antt =====
-- `lookup` finds the longest prefix of the prompt whose blocks are stored, in order.
use kraken_infer.Base.{
  ℕ, zero, suc, ◌+◌, ◌*◌, ◌≤◌, ◌<◌, ◌≡◌, refl, sym, ◌∙◌, inl, inr, false, ◌&&◌, List, [], ◌∷◌, ◌++◌,
  ltb, leb, leb→le, Bool-cases, length, All, arith, u64_mod, wrap, wrap_lem, All-map, ℤ, append-nil,
  append_assoc, if◌then◌else◌,
}
use kraken_infer.PrefixCache.Hash.{compute_hash, root_hash}
use kraken_infer.PrefixCache.Index.{
  BlockMetadata, Index, Found, find_block, accepts, take_hit, lookup_loop, lookup, is_off,
  nothing_found, enough_reuse, count_lookup,
}
use kraken_infer.PrefixCache.Blocks.{All-touch}
use kraken_infer.PrefixCache.Valid.{IsBlock, IsValid}
use kraken_infer.PrefixCache.Lookup.{
  IsStored, Stored, Shaped, chain, accepts_sound, accepts_complete, Stored-touch, Stored-untouch,
}

-- What the loop adds to `r`: the longest chain of stored blocks from `start` on.
pub record IsLongest (c : Index) (tokens : List ℤ) (start parent : ℕ) (r r' : Found) : Type 0 where
  pub count : ℕ
  pub hits : r'.hit_tokens ≡ r.hit_tokens + count * c.config.block_tokens
  pub hashes :
      r'.block_hashes ≡ r.block_hashes ++ chain c.config.block_tokens tokens start parent count
  pub inside : start + count * c.config.block_tokens ≤ length tokens
  pub stored : Stored c.blocks c.config.block_tokens tokens start parent count
  pub longest : ¬ Stored c.blocks c.config.block_tokens tokens start parent (suc count)

-- The block at `start` is rejected: the loop adds nothing.
IsLongest-stop :
    (c : Index) (tokens : List ℤ) (start parent : ℕ) (r : Found)
    → start ≤ length tokens
    → ¬ Stored c.blocks c.config.block_tokens tokens start parent 1
    → IsLongest c tokens start parent r r
IsLongest-stop c tokens start parent r h none_here = record {
  count = 0;
  hits = omega arith;
  hashes = sym (append-nil r.block_hashes);
  inside = omega arith;
  stored = tt;
  longest = none_here;
}

-- The block at `start` is accepted, and the loop goes on behind it.
IsLongest-step :
    (c : Index) (tokens : List ℤ) (start parent : ℕ) (r r' : Found)
    → start + c.config.block_tokens ≤ length tokens
    → IsStored c.blocks c.config.block_tokens tokens start parent
        (compute_hash c.config.block_tokens tokens start parent)
    → r.hit_tokens + c.config.block_tokens < u64_mod
    → IsLongest
        (take_hit c r (compute_hash c.config.block_tokens tokens start parent)).0
        tokens
        (start + c.config.block_tokens)
        (compute_hash c.config.block_tokens tokens start parent)
        (take_hit c r (compute_hash c.config.block_tokens tokens start parent)).1
        r'
    → IsLongest c tokens start parent r r'
unfolding take_hit
IsLongest-step c tokens start parent r r' inside one small w =
    let size = c.config.block_tokens in
    let h = compute_hash size tokens start parent in
    let t = wrap (c.tick + 1) in
    record {
      count = suc w.count;
      hits = (let e = w.hits in omega arith);
      hashes =
          w.hashes
          ∙ append_assoc r.block_hashes (h ∷ []) (chain size tokens (start + size) h w.count);
      inside = (let e = w.inside in omega arith);
      stored =
          (inside, one, Stored-untouch h t c.blocks size tokens (start + size) h w.count w.stored);
      longest =
          λ s. w.longest (Stored-touch h t c.blocks size tokens (start + size) h (suc w.count) s.2);
    }

lookup_loop-IsLongest :
    (fuel : ℕ) (tokens : List ℤ) (c : Index) (r : Found) (start parent : ℕ)
    → All (Shaped c.config.block_tokens) c.blocks
    → 0 < c.config.block_tokens
    → start ≤ length tokens
    → r.hit_tokens ≡ start
    → length tokens + c.config.block_tokens < u64_mod
    → length tokens < start + fuel
    → IsLongest c tokens start parent r (lookup_loop fuel tokens c r start parent).1
unfolding lookup_loop take_hit
lookup_loop-IsLongest zero tokens c r start parent a pos h e small f = absurd (omega arith)
lookup_loop-IsLongest (suc fuel) tokens c r start parent a pos h e small f =
    let size = c.config.block_tokens in
    let hash = compute_hash size tokens start parent in
    let t = wrap (c.tick + 1) in
    let next = (take_hit c r hash).0 in
    let r' = (take_hit c r hash).1 in
    let unwrapped : wrap (start + size) ≡ start + size = wrap_lem (start + size) (omega arith) in
    elim (Bool-cases (leb (start + size) (length tokens))) [
      | inl fits ↦ elim (Bool-cases (accepts size tokens start parent (find_block hash c.blocks))) [
        | inl hit ↦
            let inside : start + size ≤ length tokens = ground arith in
            let counted : wrap (r.hit_tokens + size) ≡ start + size = rw e unwrapped in
            rw (unwrapped, fits, hit, lookup_loop)
              (IsLongest-step c tokens start parent r _ inside
                (accepts_sound c.blocks size tokens start parent hash a hit) (omega arith)
                (lookup_loop-IsLongest fuel tokens next r' (start + size) hash
                  (All-touch (Shaped size) hash t c.blocks (λ b s. s) a) pos inside counted small
                  (omega arith)))
        | inr miss ↦
            rw (unwrapped, fits, miss, lookup_loop)
              (IsLongest-stop c tokens start parent r h (λ s.
                let y = accepts_complete c.blocks size tokens start parent hash a s.0 s.1 in cc))
      ]
      | inr short ↦
          rw (unwrapped, short, lookup_loop)
            (IsLongest-stop c tokens start parent r h (λ s. let y = s.0 in ground arith))
    ]

-- `r` reports the longest chain of stored blocks that spells a prefix of the prompt, or nothing if
-- that is shorter than `min_reuse_tokens`.
pub record FindsLongest (c : Index) (tokens : List ℤ) (r : Found) : Type 0 where
  pub count : ℕ
  pub inside : count * c.config.block_tokens ≤ length tokens
  pub stored : Stored c.blocks c.config.block_tokens tokens 0 root_hash count
  pub longest : ¬ Stored c.blocks c.config.block_tokens tokens 0 root_hash (suc count)
  pub result : r ≡ (
      if ltb (count * c.config.block_tokens) c.config.min_reuse_tokens
      then nothing_found
      else record {
        hit_tokens = count * c.config.block_tokens;
        block_hashes = chain c.config.block_tokens tokens 0 root_hash count;
      })

pub is_off-block_tokens : (c : Index) → is_off c.config ≡ false → 0 < c.config.block_tokens
unfolding is_off
is_off-block_tokens c h = ground arith

Found-eta :
    (r : Found) (n : ℕ) (hs : List ℕ)
    → r.hit_tokens ≡ n
    → r.block_hashes ≡ hs
    → r ≡ record { hit_tokens = n; block_hashes = hs }
Found-eta r n hs p q = ground arith

-- On a valid index that is on, if the prompt's length plus a block does not wrap, `lookup` returns
-- the longest chain of stored blocks that spells a prefix of the prompt: its `count` blocks are
-- stored under their chained hashes with the prompt's tokens, `count + 1` are not, and the result is
-- these hashes with `count * block_tokens` hit tokens, or nothing where that is less than
-- `min_reuse_tokens`.
pub lookup-FindsLongest :
    (c : Index) (tokens : List ℤ)
    → IsValid c
    → is_off c.config ≡ false
    → length tokens + c.config.block_tokens < u64_mod
    → FindsLongest c tokens (lookup c tokens).1
unfolding lookup enough_reuse
lookup-FindsLongest c tokens v on small =
    let size = c.config.block_tokens in
    let r = (lookup_loop (suc (length tokens)) tokens c nothing_found 0 root_hash).1 in
    let w =
      lookup_loop-IsLongest (suc (length tokens)) tokens c nothing_found 0 root_hash
        (All-map (IsBlock size c.tick) (Shaped size) c.blocks (λ b k. (k.counted, k.full)) v.sound)
        (is_off-block_tokens c on) (omega arith) refl small (omega arith) in
    let whole =
      Found-eta r (w.count * size) (chain size tokens 0 root_hash w.count) (omega (arith, w.hits))
        w.hashes in
    record {
      count = w.count;
      inside = omega (arith, w.inside);
      stored = w.stored;
      longest = w.longest;
      result = rw (on, lookup) (rw whole);
    }

Stored-mono :
    (bs : List BlockMetadata) (size : ℕ) (tokens : List ℤ) (start parent m n : ℕ)
    → m ≤ n
    → Stored bs size tokens start parent n
    → Stored bs size tokens start parent m
Stored-mono bs size tokens start parent zero n h s = tt
Stored-mono bs size tokens start parent (suc m) zero h s = absurd (omega arith)
Stored-mono bs size tokens start parent (suc m) (suc n) h s =
    (s.0, s.1, Stored-mono bs size tokens (start + size) _ m n (omega arith) s.2)

-- A stored prefix that is long enough is reused.
pub FindsLongest-ge :
    (c : Index) (tokens : List ℤ) (r : Found) (n : ℕ)
    → FindsLongest c tokens r
    → Stored c.blocks c.config.block_tokens tokens 0 root_hash n
    → c.config.min_reuse_tokens ≤ n * c.config.block_tokens
    → n * c.config.block_tokens ≤ r.hit_tokens
FindsLongest-ge c tokens r n w stored reuse =
    let size = c.config.block_tokens in
    let more : n ≤ w.count = elim (Bool-cases (leb n w.count)) [
      | inl le ↦ leb→le n w.count le
      | inr gt ↦ absurd (
          w.longest
            (Stored-mono c.blocks size tokens 0 root_hash (suc w.count) n (ground arith) stored))
    ] in
    let scaled : n * size ≤ w.count * size = grind arith in
    let kept : ltb (w.count * size) c.config.min_reuse_tokens ≡ false = ground arith in
    let read = rw kept at w.result in rw read scaled

lookup_loop-stats :
    (fuel : ℕ) (tokens : List ℤ) (c : Index) (r : Found) (start parent : ℕ)
    → (lookup_loop fuel tokens c r start parent).0.stats ≡ c.stats
unfolding lookup_loop take_hit
lookup_loop-stats zero tokens c r start parent = refl
lookup_loop-stats (suc fuel) tokens c r start parent =
    let size = c.config.block_tokens in
    let hash = compute_hash size tokens start parent in
    let later =
      lookup_loop-stats fuel tokens (take_hit c r hash).0 (take_hit c r hash).1
        (wrap (start + size)) hash in
    elim (Bool-cases (
      leb (wrap (start + size)) (length tokens)
      && accepts size tokens start parent (find_block hash c.blocks))) [
        | inl hit ↦ rw (hit, lookup_loop) later
        | inr miss ↦ rw (miss, lookup_loop)
      ]

FindsLongest-le :
    (c : Index) (tokens : List ℤ) (r : Found)
    → FindsLongest c tokens r
    → r.hit_tokens ≤ length tokens
FindsLongest-le c tokens r w = let e = w.result in let f = w.inside in ground arith

-- On a valid index, if the counters do not wrap, a lookup adds its hit tokens to the hit counter,
-- and hits and misses together grow by the length of the prompt, whether the index is on or off.
pub lookup-counts :
    (c : Index) (tokens : List ℤ)
    → IsValid c
    → length tokens + c.config.block_tokens < u64_mod
    → c.stats.hit_tokens + length tokens < u64_mod
    → c.stats.miss_tokens + length tokens < u64_mod
    → ((lookup c tokens).0.stats.hit_tokens ≡ c.stats.hit_tokens + (lookup c tokens).1.hit_tokens)
      × ((lookup c tokens).0.stats.hit_tokens + (lookup c tokens).0.stats.miss_tokens
          ≡ c.stats.hit_tokens + c.stats.miss_tokens + length tokens)
unfolding lookup count_lookup
lookup-counts c tokens v small h m = elim (Bool-cases (is_off c.config)) [
  | inl off ↦ rw (off, lookup) (omega arith, omega arith)
  | inr on ↦
      let w = FindsLongest-le c tokens _ (lookup-FindsLongest c tokens v on small) in
      let same = lookup_loop-stats (suc (length tokens)) tokens c nothing_found 0 root_hash in
      let le = rw (on, lookup) at w in rw (on, lookup) (rw same (omega arith, omega arith))
]
