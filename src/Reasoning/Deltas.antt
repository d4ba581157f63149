-- ===== src/Reasoning/Deltas.antt =====
-- The texts of the deltas: `append_delta` adds to the text of its kind, and never leaves two neighbours
-- of one kind.
use kraken_infer.Base.{
  ℕ, ◌≡◌, refl, sym, inl, inr, List, [], ◌∷◌, ◌++◌, append-nil, append_assoc, if◌then◌else◌,
  Bool-cases, arith,
}
use kraken_infer.Reasoning.Stream.{ReasoningDelta, Kind, kind_eq, append_text, append_delta}

-- The text of all deltas of a kind.
abbrev pub text_of : Kind → List ReasoningDelta → List ℕ
text_of kind [] = []
text_of kind (d ∷ deltas) =
    if kind_eq d.kind kind then d.text ++ text_of kind deltas else text_of kind deltas

text_of-append_text :
    (kind other : Kind) (deltas : List ReasoningDelta) (text : List ℕ)
    → text_of kind (append_text deltas other text)
      ≡ (if kind_eq other kind then text_of kind deltas ++ text else text_of kind deltas)
unfolding append_text
text_of-append_text kind other [] text = elim (Bool-cases (kind_eq other kind)) [
  | inl same ↦ rw same (append-nil text)
  | inr apart ↦ rw apart
]
text_of-append_text kind other (d ∷ []) text =
    ground (arith, append-nil text, append-nil d.text, append-nil (d.text ++ text))
text_of-append_text kind other (d ∷ e ∷ deltas) text = ground (
  arith,
  text_of-append_text kind other (e ∷ deltas) text,
  append_assoc d.text (text_of kind (e ∷ deltas)) text,
)

pub text_of-append_delta :
    (kind other : Kind) (deltas : List ReasoningDelta) (text : List ℕ)
    → text_of kind (append_delta deltas other text)
      ≡ (if kind_eq other kind then text_of kind deltas ++ text else text_of kind deltas)
unfolding append_delta
text_of-append_delta kind other deltas [] = elim (Bool-cases (kind_eq other kind)) [
  | inl same ↦ rw same (sym (append-nil (text_of kind deltas)))
  | inr apart ↦ rw apart
]
text_of-append_delta kind other deltas (c ∷ text) = text_of-append_text kind other deltas (c ∷ text)

pub text_of-append :
    (kind : Kind) (first second : List ReasoningDelta)
    → text_of kind (first ++ second) ≡ text_of kind first ++ text_of kind second
text_of-append kind [] second = refl
text_of-append kind (d ∷ first) second =
    let ih = text_of-append kind first second in
    elim (Bool-cases (kind_eq d.kind kind)) [
      | inl same ↦
          rw (same, ih) (sym (append_assoc d.text (text_of kind first) (text_of kind second)))
      | inr apart ↦ rw (apart, ih)
    ]
