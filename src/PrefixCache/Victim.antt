-- ===== src/PrefixCache/Victim.antt =====
-- The victim of an eviction: the first block with the least tick, and what the vector holds without
-- it.
use kraken_infer.Base.{
  ℕ, ◌+◌, ◌≤◌, ◌≡◌, ◌≢◌, refl, sym, inl, inr, false, List, [], ◌∷◌, none, some, ◌==◌, ltb,
  if◌then◌else◌, Bool-cases, length, All, Fresh, Distinct, arith,
}
use kraken_infer.PrefixCache.Index.{BlockMetadata, find_block, oldest, erase_tick}

oldest-le_self :
    (v : BlockMetadata) (bs : List BlockMetadata) → (oldest v bs).last_used_tick ≤ v.last_used_tick
unfolding oldest
oldest-le_self v [] = omega arith
oldest-le_self v (x ∷ bs) = ground (arith, oldest-le_self x bs, oldest-le_self v bs)

-- No block is older than the victim.
pub oldest-le :
    (n : ℕ) (v : BlockMetadata) (bs : List BlockMetadata)
    → n ≡ (oldest v bs).last_used_tick
    → All (λ b. n ≤ b.last_used_tick) (v ∷ bs)
unfolding oldest
oldest-le n v [] e = (omega arith, tt)
oldest-le n v (x ∷ bs) e = elim (Bool-cases (ltb x.last_used_tick v.last_used_tick)) [
  | inl less ↦ let (a, b) = oldest-le n x bs (rw (less, oldest) at e) in (ground arith, (a, b))
  | inr more ↦ let (a, b) = oldest-le n v bs (rw (more, oldest) at e) in (a, (ground arith, b))
]

oldest-eq :
    (v : BlockMetadata) (bs : List BlockMetadata)
    → v.last_used_tick ≡ (oldest v bs).last_used_tick
    → oldest v bs ≡ v
unfolding oldest
oldest-eq v [] e = refl
oldest-eq v (x ∷ bs) e = ground (arith, oldest-le_self x bs, oldest-eq v bs)

-- `ys` is `xs` without one occurrence of `v`.
pub data Removes (v : BlockMetadata) : List BlockMetadata → List BlockMetadata → Type 0 where
  here : {xs : List BlockMetadata} → Removes v (v ∷ xs) xs
  there :
      {x : BlockMetadata} {xs ys : List BlockMetadata}
      → Removes v xs ys
      → Removes v (x ∷ xs) (x ∷ ys)

Removes-eq : (v w : BlockMetadata) (xs : List BlockMetadata) → w ≡ v → Removes w (v ∷ xs) xs
Removes-eq v w xs e = rw e here

Removes-step :
    (v : BlockMetadata) (bs : List BlockMetadata)
    → (v.last_used_tick ≢ (oldest v bs).last_used_tick
        → Removes (oldest v bs) bs (erase_tick (oldest v bs).last_used_tick bs))
    → Removes (oldest v bs) (v ∷ bs) (erase_tick (oldest v bs).last_used_tick (v ∷ bs))
unfolding erase_tick
Removes-step v bs tail = elim (Bool-cases (v.last_used_tick == (oldest v bs).last_used_tick)) [
  | inl same ↦ rw (same, erase_tick) (Removes-eq v (oldest v bs) bs (oldest-eq v bs (ground arith)))
  | inr other ↦ rw (other, erase_tick) (there (tail (ground arith)))
]

Removes-later :
    (v x : BlockMetadata) (bs : List BlockMetadata)
    → v.last_used_tick ≢ (oldest v bs).last_used_tick
    → v.last_used_tick ≤ x.last_used_tick
    → Removes (oldest v bs) bs (erase_tick (oldest v bs).last_used_tick bs)
    → Removes (oldest v bs) (x ∷ bs) (erase_tick (oldest v bs).last_used_tick (x ∷ bs))
unfolding erase_tick
Removes-later v x bs ne le r =
    let other : (x.last_used_tick == (oldest v bs).last_used_tick) ≡ false =
      ground (arith, oldest-le_self v bs) in
    rw (other, erase_tick) (there r)

Removes-tail :
    (v : BlockMetadata) (bs : List BlockMetadata)
    → v.last_used_tick ≢ (oldest v bs).last_used_tick
    → Removes (oldest v bs) bs (erase_tick (oldest v bs).last_used_tick bs)
unfolding oldest
Removes-tail v [] ne = absurd (ne refl)
Removes-tail v (x ∷ bs) ne = elim (Bool-cases (ltb x.last_used_tick v.last_used_tick)) [
  | inl less ↦ rw (less, oldest) (Removes-step x bs (Removes-tail x bs))
  | inr more ↦
      rw (more, oldest)
        (Removes-later v x bs (ground arith) (ground arith) (Removes-tail v bs (ground arith)))
]

-- The eviction removes exactly the victim.
pub Removes-victim :
    (v : BlockMetadata) (bs : List BlockMetadata)
    → Removes (oldest v bs) (v ∷ bs) (erase_tick (oldest v bs).last_used_tick (v ∷ bs))
Removes-victim v bs = Removes-step v bs (Removes-tail v bs)

pub length-Removes :
    {v : BlockMetadata} {xs ys : List BlockMetadata} → Removes v xs ys → length xs ≡ length ys + 1
length-Removes here = omega arith
length-Removes (there r) = omega (arith, length-Removes r)

Fresh-Removes :
    (key : BlockMetadata → ℕ) (n : ℕ) {v : BlockMetadata} {xs ys : List BlockMetadata}
    → Removes v xs ys
    → Fresh key n xs
    → (key v ≢ n) × Fresh key n ys
Fresh-Removes key n here f = f
Fresh-Removes key n (there r) f = let (a, b) = Fresh-Removes key n r f.1 in (a, (f.0, b))

-- What is left shares no key with the victim.
pub Distinct-Removes :
    (key : BlockMetadata → ℕ) {v : BlockMetadata} {xs ys : List BlockMetadata}
    → Removes v xs ys
    → Distinct key xs
    → Fresh key (key v) ys
Distinct-Removes key here d = d.0
Distinct-Removes key (there r) d =
    ((λ e. (Fresh-Removes key _ r d.0).0 (sym e)), Distinct-Removes key r d.1)

find_block-Removes_ne :
    (h : ℕ) {v : BlockMetadata} {xs ys : List BlockMetadata}
    → Removes v xs ys
    → v.hash ≢ h
    → find_block h ys ≡ find_block h xs
unfolding find_block
find_block-Removes_ne h here ne = ground arith
find_block-Removes_ne h (there r) ne = ground (arith, find_block-Removes_ne h r ne)

pub find_block_of_Fresh :
    (h : ℕ) (bs : List BlockMetadata) → Fresh (λ b. b.hash) h bs → find_block h bs ≡ none
unfolding find_block
find_block_of_Fresh h [] f = refl
find_block_of_Fresh h (x ∷ bs) f = ground (arith, find_block_of_Fresh h bs f.1)

-- After an eviction the victim's hash is not found, and every other lookup is as before.
pub find_block-Removes :
    (h : ℕ) {v : BlockMetadata} {xs ys : List BlockMetadata}
    → Removes v xs ys
    → Distinct (λ b. b.hash) xs
    → find_block h ys ≡ (if v.hash == h then none else find_block h xs)
find_block-Removes h {v} {xs} {ys} r d = elim (Bool-cases (v.hash == h)) [
  | inl same ↦
      let e : v.hash ≡ h = ground arith in
      rw same (rw (← e) (find_block_of_Fresh v.hash ys (Distinct-Removes (λ b. b.hash) r d)))
  | inr other ↦ rw other (find_block-Removes_ne h r (ground arith))
]

pub find_block-Removes_self :
    {v : BlockMetadata} {xs ys : List BlockMetadata}
    → Removes v xs ys
    → Distinct (λ b. b.hash) xs
    → find_block v.hash xs ≡ some v
unfolding find_block
find_block-Removes_self here d = ground arith
find_block-Removes_self {v} (there {x} {xs} {ys} r) d =
    let other = (Fresh-Removes (λ b. b.hash) x.hash r d.0).0 in
    ground (arith, find_block-Removes_self r d.1)
