-- ===== src/Reasoning/Loop.antt =====
-- Invariants of the loop of `drain`: what each round keeps, the loop keeps.
use kraken_infer.Base.{
  ℕ, zero, suc, ◌≡◌, ap, inl, inr, Bool, false, List, some, is_empty, Bool-cases,
}
use mathlib.Core.Path.{subst₂}
use mathlib.Core.Option.{some-injective}
use kraken_infer.Reasoning.Stream.{
  ReasoningDelta, ReasoningStreamParser, Round, continue_with, break_with, drain_round, drain_loop,
}

abbrev pub Invariant : Type 1
Invariant = ReasoningStreamParser → List ReasoningDelta → Type 0

-- The round's end has the property.
abbrev pub Leaves : Invariant → Round → Type 0
Leaves P (continue_with p deltas) = P p deltas
Leaves P (break_with p deltas) = P p deltas

pub drain_loop-inv :
    (P : Invariant) (final : Bool)
    → ((p : ReasoningStreamParser) (deltas : List ReasoningDelta)
        → is_empty p.buffer ≡ false
        → P p deltas
        → Leaves P (drain_round final p deltas))
    → (fuel : ℕ) (p : ReasoningStreamParser) (deltas : List ReasoningDelta)
      (p' : ReasoningStreamParser) (deltas' : List ReasoningDelta)
    → P p deltas
    → drain_loop fuel final p deltas ≡ some (p', deltas')
    → P p' deltas'
unfolding drain_loop
drain_loop-inv P final keeps zero p deltas p' deltas' inv e = absurd (cc)
drain_loop-inv P final keeps (suc fuel) p deltas p' deltas' inv e =
    elim (Bool-cases (is_empty p.buffer)) [
      | inl empty ↦
          let same = some-injective _ _ (rw empty at e) in
          subst₂ P (ap (λ q. q.0) same) (ap (λ q. q.1) same) inv
      | inr filled ↦
          go (drain_round final p deltas) (keeps p deltas filled inv)
            (λ q ds. drain_loop-inv P final keeps fuel q ds p' deltas') (rw filled at e)
    ]
  where
    go :
        (round : Round)
        → Leaves P round
        → ((q : ReasoningStreamParser) (ds : List ReasoningDelta)
            → P q ds
            → drain_loop fuel final q ds ≡ some (p', deltas')
            → P p' deltas')
        → (elim round [
          | continue_with q ds ↦ drain_loop fuel final q ds
          | break_with q ds ↦ some (q, ds)
        ])
          ≡ some (p', deltas')
        → P p' deltas'
    go (continue_with q ds) kept rest e = rest q ds kept e
    go (break_with q ds) kept rest e =
        let same = some-injective (q, ds) (p', deltas') e in
        subst₂ P (ap (λ q. q.0) same) (ap (λ q. q.1) same) kept
