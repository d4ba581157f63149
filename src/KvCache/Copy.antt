-- ===== src/KvCache/Copy.antt =====
-- What a copy changes.
use kraken_infer.Base.{
  ℕ, zero, suc, ◌+◌, ◌≤◌, ◌<◌, ◌≡◌, refl, ap, List, [], ◌∷◌, length, get_elem?, arith,
}
use kraken_infer.KvCache.Cache.{copy_to}

module _ {Float : Type 0} where
  pub length-copy_to :
      (target : List Float) (base : ℕ) (part : List Float)
      → length (copy_to target base part) ≡ length target
  unfolding copy_to
  length-copy_to target zero [] = refl
  length-copy_to [] zero (v ∷ part) = refl
  length-copy_to (x ∷ target) zero (v ∷ part) = ap suc (length-copy_to target zero part)
  length-copy_to [] (suc base) part = refl
  length-copy_to (x ∷ target) (suc base) part = ap suc (length-copy_to target base part)

  -- Inside the copied range stands the part.
  pub get_elem?-copy_to_in :
      (target : List Float) (base : ℕ) (part : List Float) (i j : ℕ)
      → i < length part
      → base + length part ≤ length target
      → j ≡ base + i
      → get_elem? (copy_to target base part) j ≡ get_elem? part i
  unfolding copy_to
  get_elem?-copy_to_in target zero [] i j h k e = elim h [ ]
  get_elem?-copy_to_in [] zero (v ∷ part) i j h k e = absurd (omega arith)
  get_elem?-copy_to_in (x ∷ target) zero (v ∷ part) zero zero h k e = refl
  get_elem?-copy_to_in (x ∷ target) zero (v ∷ part) zero (suc j) h k e = absurd (omega arith)
  get_elem?-copy_to_in (x ∷ target) zero (v ∷ part) (suc i) zero h k e = absurd (omega arith)
  get_elem?-copy_to_in (x ∷ target) zero (v ∷ part) (suc i) (suc j) h k e =
      get_elem?-copy_to_in target zero part i j (omega arith) (omega arith) (omega arith)
  get_elem?-copy_to_in [] (suc base) part i j h k e = absurd (omega arith)
  get_elem?-copy_to_in (x ∷ target) (suc base) part i zero h k e = absurd (omega arith)
  get_elem?-copy_to_in (x ∷ target) (suc base) part i (suc j) h k e =
      get_elem?-copy_to_in target base part i j h (omega arith) (omega arith)

  -- Outside of it nothing changes.
  pub get_elem?-copy_to_below :
      (target : List Float) (base : ℕ) (part : List Float) (i : ℕ)
      → i < base
      → get_elem? (copy_to target base part) i ≡ get_elem? target i
  unfolding copy_to
  get_elem?-copy_to_below target zero part i h = elim h [ ]
  get_elem?-copy_to_below [] (suc base) part i h = refl
  get_elem?-copy_to_below (x ∷ target) (suc base) part zero h = refl
  get_elem?-copy_to_below (x ∷ target) (suc base) part (suc i) h =
      get_elem?-copy_to_below target base part i (omega arith)

  pub get_elem?-copy_to_above :
      (target : List Float) (base : ℕ) (part : List Float) (i : ℕ)
      → base + length part ≤ i
      → get_elem? (copy_to target base part) i ≡ get_elem? target i
  unfolding copy_to
  get_elem?-copy_to_above target zero [] i h = refl
  get_elem?-copy_to_above [] zero (v ∷ part) i h = refl
  get_elem?-copy_to_above (x ∷ target) zero (v ∷ part) zero h = absurd (omega arith)
  get_elem?-copy_to_above (x ∷ target) zero (v ∷ part) (suc i) h =
      get_elem?-copy_to_above target zero part i (omega arith)
  get_elem?-copy_to_above [] (suc base) part i h = refl
  get_elem?-copy_to_above (x ∷ target) (suc base) part zero h = absurd (omega arith)
  get_elem?-copy_to_above (x ∷ target) (suc base) part (suc i) h =
      get_elem?-copy_to_above target base part i (omega arith)
