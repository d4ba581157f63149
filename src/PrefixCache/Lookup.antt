-- ===== src/PrefixCache/Lookup.antt =====
-- `lookup` finds the longest prefix of the prompt whose blocks are stored.
use kraken_infer.Base.{
  ℕ, zero, suc, ◌+◌, ◌≤◌, ◌≡◌, refl, inl, inr, true, List, [], ◌∷◌, some, ◌==◌, Bool-cases,
  Option-cases, length, take, drop, All, arith, ℤ, ℤ_eq_iff, length-drop,
}
use kraken_infer.PrefixCache.Hash.{compute_hash, slice}
use kraken_infer.PrefixCache.Index.{BlockMetadata, find_block, touch, tokens_match, accepts}
use kraken_infer.PrefixCache.Blocks.{find_block-All, find_block-touch}

tokens_match_sound :
    (n : ℕ) (stored prompt : List ℤ)
    → length stored ≡ n
    → tokens_match n stored prompt ≡ true
    → stored ≡ take n prompt
unfolding tokens_match
tokens_match_sound zero [] prompt l m = refl
tokens_match_sound zero (s ∷ stored) prompt l m = absurd (omega arith)
tokens_match_sound (suc n) [] prompt l m = absurd (omega arith)
tokens_match_sound (suc n) (s ∷ stored) [] l m = cc
tokens_match_sound (suc n) (s ∷ stored) (p ∷ prompt) l m =
    ground (arith, ℤ_eq_iff s p, tokens_match_sound n stored prompt)

tokens_match-take :
    (n : ℕ) (prompt : List ℤ) → n ≤ length prompt → tokens_match n (take n prompt) prompt ≡ true
unfolding tokens_match
tokens_match-take zero prompt h = refl
tokens_match-take (suc n) [] h = absurd (omega arith)
tokens_match-take (suc n) (p ∷ prompt) h =
    rw ((ℤ_eq_iff p p).1 refl) (tokens_match-take n prompt (omega arith))

-- The block with hash `h` is stored, after `parent`, and holds the prompt's tokens at `start`.
pub record IsStored (bs : List BlockMetadata) (size : ℕ) (tokens : List ℤ) (start parent h : ℕ)
    : Type 0 where
  pub found : BlockMetadata
  pub is_found : find_block h bs ≡ some found
  pub parent_is : found.parent_hash ≡ parent
  pub tokens_are : found.tokens ≡ slice tokens start size

-- The hashes of `count` blocks of the prompt from `start` on.
abbrev pub chain : ℕ → List ℤ → ℕ → ℕ → ℕ → List ℕ
chain size tokens start parent zero = []
chain size tokens start parent (suc count) =
    let h = compute_hash size tokens start parent in h ∷ chain size tokens (start + size) h count

-- These blocks lie within the prompt and all are stored.
abbrev pub Stored : List BlockMetadata → ℕ → List ℤ → ℕ → ℕ → ℕ → Type 0
Stored bs size tokens start parent zero = Unit
Stored bs size tokens start parent (suc count) =
    (start + size ≤ length tokens)
    × IsStored bs size tokens start parent (compute_hash size tokens start parent)
    × Stored bs size tokens (start + size) (compute_hash size tokens start parent) count

abbrev pub Shaped : ℕ → BlockMetadata → Type 0
Shaped size b = (b.token_count ≡ size) × (length b.tokens ≡ size)

pub accepts_sound :
    (bs : List BlockMetadata) (size : ℕ) (tokens : List ℤ) (start parent h : ℕ)
    → All (Shaped size) bs
    → accepts size tokens start parent (find_block h bs) ≡ true
    → IsStored bs size tokens start parent h
unfolding accepts
accepts_sound bs size tokens start parent h a ok = elim (Option-cases (find_block h bs)) [
  | inl missing ↦ absurd (let e = rw (missing, accepts) at ok in cc)
  | inr (b, there) ↦
      let shaped = find_block-All (Shaped size) h bs there a in
      let e = rw (there, accepts) at ok in
      record {
        found = b;
        is_found = there;
        parent_is = ground arith;
        tokens_are = tokens_match_sound size b.tokens (drop start tokens) shaped.1 (ground arith);
      }
]

pub accepts_complete :
    (bs : List BlockMetadata) (size : ℕ) (tokens : List ℤ) (start parent h : ℕ)
    → All (Shaped size) bs
    → start + size ≤ length tokens
    → IsStored bs size tokens start parent h
    → accepts size tokens start parent (find_block h bs) ≡ true
unfolding accepts
accepts_complete bs size tokens start parent h a inside s =
    let shaped = find_block-All (Shaped size) h bs s.is_found a in
    let same =
      tokens_match-take size (drop start tokens) (omega (arith, length-drop start tokens)) in
    rw (s.is_found, accepts) (rw (s.tokens_are, same) (ground arith))

IsStored-touch :
    (k t : ℕ) (bs : List BlockMetadata) (size : ℕ) (tokens : List ℤ) (start parent h : ℕ)
    → IsStored bs size tokens start parent h
    → IsStored (touch k t bs) size tokens start parent h
IsStored-touch k t bs size tokens start parent h s =
    let stamped = find_block-touch h k t bs in
    elim (Bool-cases (k == h)) [
      | inl same ↦ record {
        found = record (s.found) { last_used_tick = t };
        is_found = rw (stamped, s.is_found, same);
        parent_is = s.parent_is;
        tokens_are = s.tokens_are;
      }
      | inr other ↦ record {
        found = s.found;
        is_found = rw (stamped, s.is_found, other);
        parent_is = s.parent_is;
        tokens_are = s.tokens_are;
      }
    ]

IsStored-untouch :
    (k t : ℕ) (bs : List BlockMetadata) (size : ℕ) (tokens : List ℤ) (start parent h : ℕ)
    → IsStored (touch k t bs) size tokens start parent h
    → IsStored bs size tokens start parent h
IsStored-untouch k t bs size tokens start parent h s = elim (Option-cases (find_block h bs)) [
  | inl missing ↦
      absurd
        (let e = s.is_found in let f = find_block-touch h k t bs in let g = rw missing at f in cc)
  | inr (b, there) ↦
      let e = s.is_found in
      let p = s.parent_is in
      let q = s.tokens_are in
      let f = find_block-touch h k t bs in
      let g = rw there at f in
      record { found = b; is_found = there; parent_is = ground arith; tokens_are = ground arith }
]

pub Stored-touch :
    (k t : ℕ) (bs : List BlockMetadata) (size : ℕ) (tokens : List ℤ) (start parent count : ℕ)
    → Stored bs size tokens start parent count
    → Stored (touch k t bs) size tokens start parent count
Stored-touch k t bs size tokens start parent zero s = tt
Stored-touch k t bs size tokens start parent (suc count) (inside, one, more) = (
  inside,
  IsStored-touch k t bs size tokens start parent _ one,
  Stored-touch k t bs size tokens (start + size) _ count more,
)

pub Stored-untouch :
    (k t : ℕ) (bs : List BlockMetadata) (size : ℕ) (tokens : List ℤ) (start parent count : ℕ)
    → Stored (touch k t bs) size tokens start parent count
    → Stored bs size tokens start parent count
Stored-untouch k t bs size tokens start parent zero s = tt
Stored-untouch k t bs size tokens start parent (suc count) (inside, one, more) = (
  inside,
  IsStored-untouch k t bs size tokens start parent _ one,
  Stored-untouch k t bs size tokens (start + size) _ count more,
)
