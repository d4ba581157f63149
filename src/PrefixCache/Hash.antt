-- ===== src/PrefixCache/Hash.antt =====
-- Block hashes: `mix_u64`, `token_bits`, `compute_hash`, `parent_hash_for`.
use kraken_infer.Base.{
  ℕ, zero, suc, ◌+◌, ◌*◌, ◌/◌, bit_xor, ◌≢◌, List, [], ◌∷◌, ℤ, to_u64, wrap, ltb, ◌==◌,
  if◌then◌else◌, take, drop, arith,
}

abbrev pub root_hash : ℕ
root_hash = 1469598103934665603

abbrev pub fnv_prime : ℕ
fnv_prime = 1099511628211

unfoldable pub mix_u64 : ℕ → ℕ → ℕ
mix_u64 hash value = wrap (bit_xor hash value * fnv_prime)

unfoldable pub token_bits : ℤ → ℕ
token_bits token = to_u64 token

-- The tokens `tokens[start]` to `tokens[start + count - 1]`, as far as there are any.
abbrev pub slice : List ℤ → ℕ → ℕ → List ℤ
slice tokens start count = take count (drop start tokens)

-- The loop over one block's tokens.
unfoldable pub mix_tokens : ℕ → List ℤ → ℕ
mix_tokens hash [] = hash
mix_tokens hash (t ∷ ts) = mix_tokens (mix_u64 hash (token_bits t)) ts

-- `compute_hash` on the block's tokens and its number.
unfoldable pub block_hash : ℕ → ℕ → List ℤ → ℕ → ℕ
unfolding mix_u64 mix_tokens token_bits
block_hash block_tokens number tokens parent_hash =
    let hash = mix_tokens (mix_u64 (mix_u64 parent_hash block_tokens) number) tokens in
    if hash == 0 then 1 else hash

unfoldable pub compute_hash : ℕ → List ℤ → ℕ → ℕ → ℕ
unfolding block_hash
compute_hash block_tokens tokens token_start parent_hash =
    block_hash block_tokens (token_start / block_tokens) (slice tokens token_start block_tokens)
      parent_hash

-- The loop of `parent_hash_for` on fuel, from block start `start` with hash `parent_hash`.
unfoldable pub parent_hash_loop : ℕ → ℕ → List ℤ → ℕ → ℕ → ℕ → ℕ
parent_hash_loop zero block_tokens tokens token_start start parent_hash = parent_hash
parent_hash_loop (suc fuel) block_tokens tokens token_start start parent_hash =
    let rest =
      parent_hash_loop fuel block_tokens tokens token_start (wrap (start + block_tokens))
        (compute_hash block_tokens tokens start parent_hash) in
    if ltb start token_start then rest else parent_hash

-- Each round advances by at least one token, so `token_start` rounds are enough.
unfoldable pub parent_hash_for : ℕ → List ℤ → ℕ → ℕ
unfolding parent_hash_loop
parent_hash_for block_tokens tokens token_start =
    parent_hash_loop token_start block_tokens tokens token_start 0 root_hash

-- A block hash is never 0, the value that `commit_block` reads as "nothing evicted".
pub block_hash-ne-zero :
    (block_tokens number : ℕ) (tokens : List ℤ) (parent : ℕ)
    → block_hash block_tokens number tokens parent ≢ 0
unfolding block_hash
block_hash-ne-zero block_tokens number tokens parent = ground arith
