-- ===== src/PrefixCache/Blocks.antt =====
-- Lemmas on the block vector: `find_block`, `touch`, `oldest` and `erase_tick`.
use kraken_infer.Base.{
  ℕ, ◌≡◌, refl, inl, inr, List, [], ◌∷◌, ◌++◌, none, some, ◌==◌, ltb, if◌then◌else◌, Bool-cases,
  length, All, Fresh, Distinct, arith,
}
use kraken_infer.PrefixCache.Index.{BlockMetadata, find_block, touch, oldest, erase_tick}

pub find_block-hash :
    (h : ℕ) (bs : List BlockMetadata) {b : BlockMetadata} → find_block h bs ≡ some b → b.hash ≡ h
unfolding find_block
find_block-hash h [] e = cc
find_block-hash h (x ∷ bs) {b} e = ground (arith, find_block-hash h bs {b = b})

pub find_block-Fresh :
    (h : ℕ) (bs : List BlockMetadata) → find_block h bs ≡ none → Fresh (λ b. b.hash) h bs
unfolding find_block
find_block-Fresh h [] e = tt
find_block-Fresh h (x ∷ bs) e = (ground arith, find_block-Fresh h bs (ground arith))

-- What holds of every block holds of the one found.
pub find_block-All {κ} :
    (P : BlockMetadata → Type κ) (h : ℕ) (bs : List BlockMetadata) {b : BlockMetadata}
    → find_block h bs ≡ some b
    → All P bs
    → P b
unfolding find_block
find_block-All P h [] e a = absurd (cc)
find_block-All P h (x ∷ bs) {b} e a = elim (Bool-cases (x.hash == h)) [
  | inl same ↦ let p : x ≡ b = ground arith in rw p at a.0
  | inr other ↦ find_block-All P h bs (ground arith) a.1
]

pub find_block-append :
    (h : ℕ) (xs ys : List BlockMetadata)
    → find_block h (xs ++ ys) ≡ elim (find_block h xs) [ none ↦ find_block h ys | some b ↦ some b ]
unfolding find_block
find_block-append h [] ys = refl
find_block-append h (x ∷ xs) ys = ground (arith, find_block-append h xs ys)

-- The stamped block is found with its new tick, and the others as before.
pub find_block-touch :
    (h k t : ℕ) (bs : List BlockMetadata)
    → find_block h (touch k t bs) ≡ elim (find_block h bs) [
      | none ↦ none
      | some b ↦ some (if k == h then record b { last_used_tick = t } else b)
    ]
unfolding find_block touch
find_block-touch h k t [] = refl
find_block-touch h k t (x ∷ bs) = ground (arith, find_block-touch h k t bs)

pub length-touch : (k t : ℕ) (bs : List BlockMetadata) → length (touch k t bs) ≡ length bs
unfolding touch
length-touch k t [] = refl
length-touch k t (x ∷ bs) = ground (arith, length-touch k t bs)

module _ {κ} (P : BlockMetadata → Type κ) where
  pub All-touch :
      (k t : ℕ) (bs : List BlockMetadata)
      → ((b : BlockMetadata) → P b → P (record b { last_used_tick = t }))
      → All P bs
      → All P (touch k t bs)
  unfolding touch
  All-touch k t [] stamp a = tt
  All-touch k t (x ∷ bs) stamp a = elim (Bool-cases (x.hash == k)) [
    | inl same ↦ rw same (stamp x a.0, a.1)
    | inr other ↦ rw other (a.0, All-touch k t bs stamp a.1)
  ]

  pub All-erase_tick : (t : ℕ) (bs : List BlockMetadata) → All P bs → All P (erase_tick t bs)
  unfolding erase_tick
  All-erase_tick t [] a = tt
  All-erase_tick t (x ∷ bs) a = elim (Bool-cases (x.last_used_tick == t)) [
    | inl same ↦ rw same a.1
    | inr other ↦ rw other (a.0, All-erase_tick t bs a.1)
  ]

  pub All-oldest : (v : BlockMetadata) (bs : List BlockMetadata) → P v → All P bs → P (oldest v bs)
  unfolding oldest
  All-oldest v [] p a = p
  All-oldest v (x ∷ bs) p a = elim (Bool-cases (ltb x.last_used_tick v.last_used_tick)) [
    | inl less ↦ rw less (All-oldest x bs a.0 a.1)
    | inr more ↦ rw more (All-oldest v bs p a.1)
  ]

module _ (key : BlockMetadata → ℕ) where
  pub Fresh-erase_tick :
      (n t : ℕ) (bs : List BlockMetadata) → Fresh key n bs → Fresh key n (erase_tick t bs)
  unfolding erase_tick
  Fresh-erase_tick n t [] f = tt
  Fresh-erase_tick n t (x ∷ bs) f = elim (Bool-cases (x.last_used_tick == t)) [
    | inl same ↦ rw same f.1
    | inr other ↦ rw other (f.0, Fresh-erase_tick n t bs f.1)
  ]

  pub Distinct-erase_tick :
      (t : ℕ) (bs : List BlockMetadata) → Distinct key bs → Distinct key (erase_tick t bs)
  unfolding erase_tick
  Distinct-erase_tick t [] d = tt
  Distinct-erase_tick t (x ∷ bs) d = elim (Bool-cases (x.last_used_tick == t)) [
    | inl same ↦ rw same d.1
    | inr other ↦ rw other (Fresh-erase_tick (key x) t bs d.0, Distinct-erase_tick t bs d.1)
  ]

  module _
      (keep : (b : BlockMetadata) (t : ℕ) → key (record b { last_used_tick = t }) ≡ key b) where
    pub Fresh-touch :
        (n k t : ℕ) (bs : List BlockMetadata) → Fresh key n bs → Fresh key n (touch k t bs)
    unfolding touch
    Fresh-touch n k t [] f = tt
    Fresh-touch n k t (x ∷ bs) f = elim (Bool-cases (x.hash == k)) [
      | inl same ↦ rw same (rw (keep x t) f.0, f.1)
      | inr other ↦ rw other (f.0, Fresh-touch n k t bs f.1)
    ]

    pub Distinct-touch :
        (k t : ℕ) (bs : List BlockMetadata) → Distinct key bs → Distinct key (touch k t bs)
    unfolding touch
    Distinct-touch k t [] d = tt
    Distinct-touch k t (x ∷ bs) d = elim (Bool-cases (x.hash == k)) [
      | inl same ↦ rw same (rw (keep x t) d.0, d.1)
      | inr other ↦ rw other (Fresh-touch (key x) k t bs d.0, Distinct-touch k t bs d.1)
    ]
