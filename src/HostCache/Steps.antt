-- ===== src/HostCache/Steps.antt =====
-- The host cache as a state machine: its three methods that change state, and what every reachable
-- state satisfies.
use kraken_infer.Base.{
  ℕ, ◌+◌, ◌<◌, ◌≡◌, refl, inl, inr, Bool, not, ◌||◌, ◌&&◌, List, [], Option, none, some, ℤ, wrap,
  ltb, ◌==◌, Bool-cases, Option-cases, length, Outcome, ok, arith, u64_mod, >>=-eq-ok,
}
use mathlib.Core.Path.{subst}
use kraken_infer.PrefixCache.Index.{Config, init, find_block, hash_for_block}
use kraken_infer.PrefixCache.Valid.{init-IsValid, lookup-IsValid}
use kraken_infer.HostCache.Host.{
  HostCache, Layout, CommitResult, get_payload, host_lookup, commit_hash, commit_layout,
  host_commit, same_layout, bool_eq, configure,
}
use kraken_infer.HostCache.Agree.{
  IsConsistent, host_lookup-Agree, hash_for_block-some, store_committed-IsConsistent,
}

-- No size or counter of the call wraps.
pub record Fits {FilePath Payload : Type 0} (s : HostCache FilePath Payload) (tokens : List ℤ)
    (start : ℕ) : Type 0 where
  pub ticks : s.index.tick + length tokens + 1 < u64_mod
  pub small : start + s.index.config.block_tokens < u64_mod

module _ {FilePath Payload : Type 0} where
  ok_pair :
      {s t : HostCache FilePath Payload} {q r : CommitResult}
      → ◌≡◌ {A = Outcome (HostCache FilePath Payload × CommitResult)} (ok (s, q)) (ok (t, r))
      → s ≡ t
  ok_pair e = cc

  commit_hash-IsConsistent :
      (s : HostCache FilePath Payload) (read : Outcome Payload) (tokens : List ℤ) (start : ℕ)
      (hash : Option ℕ) {s' : HostCache FilePath Payload} {r : CommitResult}
      → IsConsistent s
      → Fits s tokens start
      → hash_for_block s.index tokens start ≡ hash
      → commit_hash s read tokens start hash ≡ ok (s', r)
      → IsConsistent s'
  unfolding commit_hash
  commit_hash-IsConsistent s read tokens start none i fits h e = subst IsConsistent (ok_pair e) i
  commit_hash-IsConsistent s read tokens start (some k) i fits h e =
      elim (Option-cases (get_payload k s.payloads)) [
        | inl missing ↦
            let (p, loaded, stored) = >>=-eq-ok read _ (rw (missing, commit_hash) at e) in
            let (same, inside) = hash_for_block-some s.index tokens start fits.small h in
            subst IsConsistent (ok_pair stored) (
              store_committed-IsConsistent s p tokens start i (let t = fits.ticks in omega arith)
                (let t = fits.ticks in omega arith) inside (rw same at missing))
        | inr (p, there) ↦ subst IsConsistent (ok_pair (rw (there, commit_hash) at e)) i
      ]

  commit_layout-IsConsistent :
      (s : HostCache FilePath Payload) (read : Outcome Payload) (tokens : List ℤ) (start chunk : ℕ)
      (layout : Option (Layout FilePath)) {s' : HostCache FilePath Payload} {r : CommitResult}
      → IsConsistent s
      → Fits s tokens start
      → commit_layout s read tokens start chunk layout ≡ ok (s', r)
      → IsConsistent s'
  unfolding commit_layout
  commit_layout-IsConsistent s read tokens start chunk none i fits e =
      subst IsConsistent (ok_pair e) i
  commit_layout-IsConsistent s read tokens start chunk (some l) i fits e =
      elim (Bool-cases
        (not (chunk == l.block_tokens) || ltb (length tokens) (wrap (start + l.block_tokens)))) [
          | inl out ↦ subst IsConsistent (ok_pair (rw (out, commit_layout) at e)) i
          | inr within ↦
              commit_hash-IsConsistent s read tokens start _ i fits refl
                (rw (within, commit_layout) at e)
        ]

  -- A commit that returns keeps index and payloads in agreement, whichever guard it took.
  pub host_commit-IsConsistent :
      (s : HostCache FilePath Payload) (read : Outcome Payload) (tokens : List ℤ) (start chunk : ℕ)
      {s' : HostCache FilePath Payload} {r : CommitResult}
      → IsConsistent s
      → Fits s tokens start
      → host_commit s read tokens start chunk ≡ ok (s', r)
      → IsConsistent s'
  unfolding host_commit
  host_commit-IsConsistent s read tokens start chunk i fits e =
      commit_layout-IsConsistent s read tokens start chunk s.layout i fits e

  pub host_lookup-IsConsistent :
      (s : HostCache FilePath Payload) (tokens : List ℤ)
      → IsConsistent s
      → s.index.tick + length tokens + 1 < u64_mod
      → IsConsistent (host_lookup s tokens).0
  unfolding host_lookup
  host_lookup-IsConsistent s tokens i small = record {
    valid = lookup-IsValid s.index tokens i.valid small;
    agree = host_lookup-Agree s tokens i.agree;
  }

  -- A cache that was just built holds nothing.
  fresh-IsConsistent :
      (s : HostCache FilePath Payload) (config : Config)
      → s.index ≡ init config
      → s.payloads ≡ []
      → IsConsistent s
  unfolding init find_block get_payload
  fresh-IsConsistent s config e f = record {
    valid = rw e (init-IsValid config);
    agree = λ h. rw (e, f) refl;
  }

  configure-IsConsistent :
      (path_eq : FilePath → FilePath → Bool) (s : HostCache FilePath Payload) (l : Layout FilePath)
      (config : Config)
      → IsConsistent s
      → IsConsistent (configure path_eq s l config)
  unfolding configure
  configure-IsConsistent path_eq s l config i =
      let old = s.index.config in
      elim (Bool-cases (
        same_layout path_eq s.layout l
        && config.block_tokens == old.block_tokens
        && config.capacity_blocks == old.capacity_blocks
        && config.min_reuse_tokens == old.min_reuse_tokens
        && bool_eq config.enabled old.enabled)) [
          | inl same ↦ rw (same, configure) i
          | inr changed ↦ rw (changed, configure) (fresh-IsConsistent _ config refl refl)
        ]

  -- One call of a method on the shared cache.
  pub data Step (path_eq : FilePath → FilePath → Bool) (s : HostCache FilePath Payload)
      : HostCache FilePath Payload → Type 0 where
    configured :
        (l : Layout FilePath) (config : Config) → Step path_eq s (configure path_eq s l config)
    looked_up :
        (tokens : List ℤ)
        → s.index.tick + length tokens + 1 < u64_mod
        → Step path_eq s (host_lookup s tokens).0
    committed :
        (read : Outcome Payload) (tokens : List ℤ) (start chunk : ℕ)
        {s' : HostCache FilePath Payload} {r : CommitResult}
        → Fits s tokens start
        → host_commit s read tokens start chunk ≡ ok (s', r)
        → Step path_eq s s'

  pub data Reach (path_eq : FilePath → FilePath → Bool) (s : HostCache FilePath Payload)
      : HostCache FilePath Payload → Type 0 where
    here : Reach path_eq s s
    next :
        {t u : HostCache FilePath Payload}
        → Reach path_eq s t
        → Step path_eq t u
        → Reach path_eq s u

  Step-IsConsistent :
      (path_eq : FilePath → FilePath → Bool) {s t : HostCache FilePath Payload}
      → Step path_eq s t
      → IsConsistent s
      → IsConsistent t
  Step-IsConsistent path_eq {s} (configured l config) i =
      configure-IsConsistent path_eq s l config i
  Step-IsConsistent path_eq {s} (looked_up tokens small) i =
      host_lookup-IsConsistent s tokens i small
  Step-IsConsistent path_eq {s} (committed read tokens start chunk fits e) i =
      host_commit-IsConsistent s read tokens start chunk i fits e

  -- Every state that the shared cache reaches from an empty one by `configure`, by lookups and by
  -- commits that return, none of which lets a counter wrap, is consistent: its index is valid, and a
  -- hash is indexed exactly when a payload is held under it.
  pub Reach-IsConsistent :
      (path_eq : FilePath → FilePath → Bool) (s : HostCache FilePath Payload) (config : Config)
      {t : HostCache FilePath Payload}
      → s.index ≡ init config
      → s.payloads ≡ []
      → Reach path_eq s t
      → IsConsistent t
  Reach-IsConsistent path_eq s config e f here = fresh-IsConsistent s config e f
  Reach-IsConsistent path_eq s config e f (next r st) =
      Step-IsConsistent path_eq st (Reach-IsConsistent path_eq s config e f r)
