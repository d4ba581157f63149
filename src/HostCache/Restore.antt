-- ===== src/HostCache/Restore.antt =====
-- What a lookup found can be restored: no payload is missing.
use kraken_infer.Base.{
  ℕ, zero, suc, ◌+◌, ◌*◌, ◌<◌, ◌≡◌, refl, ◌∙◌, sym, inl, inr, true, false, List, [], ◌∷◌, Option,
  none, some, ℤ, wrap, ltb, Bool-cases, Option-cases, length, map, Outcome, ok, ap, ◌>>=◌, >>=-same,
  arith, u64_mod, All,
}
use kraken_infer.PrefixCache.Index.{BlockMetadata, Index, find_block, is_off, lookup}
use kraken_infer.PrefixCache.Hash.{root_hash}
use kraken_infer.PrefixCache.Lookup.{Stored, chain}
use kraken_infer.PrefixCache.Longest.{lookup-FindsLongest}
use kraken_infer.PrefixCache.Valid.{IsValid}
use kraken_infer.HostCache.Host.{HostCache, Layout, get_payload, host_lookup}
use kraken_infer.HostCache.Device.{
  HostPayload, CachePlan, DeviceBuffer, restore_kv_block, restore_recurrent, restore_blocks,
  restore_last, restore_with, restore,
}
use kraken_infer.HostCache.Agree.{Agree, IsConsistent, is_some}

-- The hashes of stored blocks are found.
chain-All :
    (bs : List BlockMetadata) (size : ℕ) (tokens : List ℤ) (start parent count : ℕ)
    → Stored bs size tokens start parent count
    → All (λ h. is_some (find_block h bs) ≡ true) (chain size tokens start parent count)
chain-All bs size tokens start parent zero s = tt
chain-All bs size tokens start parent (suc count) (inside, one, more) =
    ((let e = one.is_found in ground arith), chain-All bs size tokens (start + size) _ count more)

-- The payloads that the hashes name, in their order.
abbrev pub Named : List (ℕ × HostPayload) → List ℕ → List HostPayload → Type 0
Named payloads hashes named = map (λ h. get_payload h payloads) hashes ≡ map some named

module _ {Device : Type 0}
    (copy_to_buffer_at : DeviceBuffer → ℕ → List ℕ → Device → Outcome Device) where
  -- Blocks that are copied one after the other, with no search.
  abbrev copy_blocks :
      {FilePath : Type 0}
      → Layout FilePath
      → CachePlan
      → ℕ
      → List HostPayload
      → Device
      → Outcome Device
  copy_blocks layout plan number [] device = ok device
  copy_blocks layout plan number (p ∷ named) device =
      restore_kv_block copy_to_buffer_at layout plan p (wrap (number * layout.block_tokens)) device
      >>= copy_blocks layout plan (suc number) named

  -- The recurrent caches of the last payload.
  abbrev copy_last : List HostPayload → Device → Outcome Device
  copy_last [] device = ok device
  copy_last (p ∷ []) device = restore_recurrent copy_to_buffer_at p device
  copy_last (p ∷ q ∷ named) device = copy_last (q ∷ named) device

  -- What a restore of these payloads does: their blocks, and the recurrent caches of the last one.
  abbrev pub copy_payloads :
      {FilePath : Type 0}
      → CachePlan
      → Option (Layout FilePath)
      → List HostPayload
      → Device
      → Outcome Device
  copy_payloads plan none named device = ok device
  copy_payloads plan (some layout) named device =
      copy_blocks layout plan 0 named device >>= copy_last named

  restore_blocks-copy :
      {FilePath : Type 0} (layout : Layout FilePath) (plan : CachePlan) (number : ℕ)
      (payloads : List (ℕ × HostPayload)) (hashes : List ℕ) (named : List HostPayload) (d : Device)
      → Named payloads hashes named
      → restore_blocks copy_to_buffer_at layout plan number payloads hashes d
        ≡ copy_blocks layout plan number named d
  unfolding restore_blocks
  restore_blocks-copy layout plan number payloads [] [] d e = refl
  restore_blocks-copy layout plan number payloads [] (p ∷ named) d e = absurd (cc)
  restore_blocks-copy layout plan number payloads (h ∷ hashes) [] d e = absurd (cc)
  restore_blocks-copy layout plan number payloads (h ∷ hashes) (p ∷ named) d e =
      let here : get_payload h payloads ≡ some p = cc in
      let more : Named payloads hashes named = cc in
      rw (here, restore_blocks)
        (>>=-same
          (restore_kv_block copy_to_buffer_at layout plan p (wrap (number * layout.block_tokens)) d)
          (λ d'. restore_blocks-copy layout plan (suc number) payloads hashes named d' more))

  restore_last-copy :
      (payloads : List (ℕ × HostPayload)) (hashes : List ℕ) (named : List HostPayload) (d : Device)
      → Named payloads hashes named
      → restore_last copy_to_buffer_at payloads hashes d ≡ copy_last named d
  unfolding restore_last
  restore_last-copy payloads [] [] d e = refl
  restore_last-copy payloads [] (p ∷ named) d e = absurd (cc)
  restore_last-copy payloads (h ∷ hashes) [] d e = absurd (cc)
  restore_last-copy payloads (h ∷ []) (p ∷ []) d e =
      let here : get_payload h payloads ≡ some p = cc in rw (here, restore_last) refl
  restore_last-copy payloads (h ∷ []) (p ∷ q ∷ named) d e = absurd (cc)
  restore_last-copy payloads (h ∷ h' ∷ hashes) (p ∷ []) d e = absurd (cc)
  restore_last-copy payloads (h ∷ h' ∷ hashes) (p ∷ q ∷ named) d e =
      restore_last-copy payloads (h' ∷ hashes) (q ∷ named) d
        (let f : Named payloads (h' ∷ hashes) (q ∷ named) = cc in f)

  restore_with-copy :
      {FilePath : Type 0} (layout : Option (Layout FilePath)) (plan : CachePlan)
      (payloads : List (ℕ × HostPayload)) (hashes : List ℕ) (named : List HostPayload) (d : Device)
      → Named payloads hashes named
      → restore_with copy_to_buffer_at plan layout payloads hashes d
        ≡ copy_payloads plan layout named d
  unfolding restore_with
  restore_with-copy none plan payloads hashes named d e = refl
  restore_with-copy (some layout) plan payloads hashes named d e =
      ap (λ m. m >>= restore_last copy_to_buffer_at payloads hashes)
        (restore_blocks-copy layout plan 0 payloads hashes named d e)
      ∙ >>=-same (copy_blocks layout plan 0 named d)
          (λ d'. restore_last-copy payloads hashes named d' e)

-- Hashes that all have a payload name payloads.
Named-payloads :
    (payloads : List (ℕ × HostPayload)) (hashes : List ℕ)
    → All (λ h. is_some (get_payload h payloads) ≡ true) hashes
    → (named : List HostPayload) × Named payloads hashes named
Named-payloads payloads [] all = ([], refl)
Named-payloads payloads (h ∷ hashes) all = elim (Option-cases (get_payload h payloads)) [
  | inl missing ↦ absurd (let e = all.0 in let f : false ≡ true = ground arith in cc)
  | inr (p, there) ↦
      let (named, e) = Named-payloads payloads hashes all.1 in
      (p ∷ named, let f : Named payloads (h ∷ hashes) (p ∷ named) = cc in f)
]

-- A lookup reports hashes that the index stores.
lookup_hashes-All :
    (c : Index) (tokens : List ℤ)
    → IsValid c
    → length tokens + c.config.block_tokens < u64_mod
    → All (λ h. is_some (find_block h c.blocks) ≡ true) (lookup c tokens).1.block_hashes
unfolding lookup
lookup_hashes-All c tokens v small = elim (Bool-cases (is_off c.config)) [
  | inl off ↦ rw (off, lookup) tt
  | inr on ↦
      let w = lookup-FindsLongest c tokens v on small in
      let size = c.config.block_tokens in
      let stored = chain-All c.blocks size tokens 0 root_hash w.count w.stored in
      elim (Bool-cases (ltb (w.count * size) c.config.min_reuse_tokens)) [
        | inl few ↦ let e = rw few at w.result in rw e tt
        | inr enough ↦ let e = rw enough at w.result in rw e stored
      ]
]

payloads-All :
    {FilePath Payload : Type 0} (s : HostCache FilePath Payload) (hs : List ℕ)
    → Agree s
    → All (λ h. is_some (find_block h s.index.blocks) ≡ true) hs
    → All (λ h. is_some (get_payload h s.payloads) ≡ true) hs
payloads-All s [] a all = tt
payloads-All s (h ∷ hs) a all = (sym (a h) ∙ all.0, payloads-All s hs a all.1)

-- On a consistent cache, the blocks that a lookup just reported are all restored: each hash names a
-- payload, and `restore` does what copying these payloads does, their blocks in the order of the prompt
-- and then the recurrent caches of the last one, whatever a copy to the device returns, without ever
-- missing a payload. The condition: the prompt's length plus a block does not wrap.
pub restore-host_lookup :
    {FilePath Device : Type 0}
    (copy_to_buffer_at : DeviceBuffer → ℕ → List ℕ → Device → Outcome Device)
    (s : HostCache FilePath HostPayload) (plan : CachePlan) (tokens : List ℤ) (d : Device)
    → IsConsistent s
    → length tokens + s.index.config.block_tokens < u64_mod
    → (named : List HostPayload) × Named s.payloads (host_lookup s tokens).1.block_hashes named
      × (restore copy_to_buffer_at
            (host_lookup s tokens).0
            plan
            (host_lookup s tokens).1.block_hashes
            d
          ≡ copy_payloads copy_to_buffer_at plan s.layout named d)
unfolding restore host_lookup
restore-host_lookup copy_to_buffer_at s plan tokens d i small =
    let hashes = (lookup s.index tokens).1.block_hashes in
    let (named, e) =
      Named-payloads s.payloads hashes
        (payloads-All s hashes i.agree (lookup_hashes-All s.index tokens i.valid small)) in
    (named, e, restore_with-copy copy_to_buffer_at s.layout plan s.payloads hashes named d e)
