-- ===== src/Safetensors/Ranges.antt =====
-- `validate_tensor_ranges`: the sorted ranges are compared with their neighbours, which is enough for
-- every two of them.
use kraken_infer.Base.{
  ◌≤◌, ◌<◌, ◌≡◌, refl, ◌↔◌, ◌⊎◌, inl, inr, true, false, List, [], ◌∷◌, map, All, All-map, ltb,
  Bool-cases, arith,
}
use kraken_infer.Safetensors.Header.{
  Range, before, insert, sort, apart, Tensors, range_of, validate_tensor_ranges,
}

-- One range ends where the other begins, or in front of it.
abbrev pub Apart : Range → Range → Type 0
Apart x y = (x.1 ≤ y.0) ⊎ (y.1 ≤ x.0)

abbrev pub Separate : List Range → Type 0
Separate [] = Unit
Separate (x ∷ ranges) = All (Apart x) ranges × Separate ranges

abbrev pub IsOrdered : Range → Type 0
IsOrdered r = r.0 ≤ r.1

abbrev pub IsNonempty : Range → Type 0
IsNonempty r = r.0 < r.1

-- The starts are in order.
abbrev Ascends : List Range → Type 0
Ascends [] = Unit
Ascends (x ∷ ranges) = All (λ y. x.0 ≤ y.0) ranges × Ascends ranges

Apart-swap : (x y : Range) → Apart x y → Apart y x
Apart-swap x y (inl le) = inr le
Apart-swap x y (inr le) = inl le

before-le : (x y : Range) → before x y ≡ true → x.0 ≤ y.0
unfolding before
before-le x y e = ground arith

before-ge : (x y : Range) → before x y ≡ false → y.0 ≤ x.0
unfolding before
before-ge x y e = ground arith

module _ (P : Range → Type 0) where
  insert-All : (x : Range) (ranges : List Range) → P x → All P ranges → All P (insert x ranges)
  unfolding insert
  insert-All x [] p all = (p, tt)
  insert-All x (y ∷ ranges) p (q, all) = elim (Bool-cases (before x y)) [
    | inl e ↦ rw e (p, (q, all))
    | inr e ↦ rw e (q, insert-All x ranges p all)
  ]

  All-insert : (x : Range) (ranges : List Range) → All P (insert x ranges) → P x × All P ranges
  unfolding insert
  All-insert x [] all = all
  All-insert x (y ∷ ranges) all = elim (Bool-cases (before x y)) [
    | inl e ↦ rw e at all
    | inr e ↦
        let (q, rest) = rw e at all in
        let (p, others) = All-insert x ranges rest in (p, (q, others))
  ]

  sort-All : (ranges : List Range) → All P ranges → All P (sort ranges)
  unfolding sort
  sort-All [] all = tt
  sort-All (x ∷ ranges) (p, all) = insert-All x (sort ranges) p (sort-All ranges all)

  All-sort : (ranges : List Range) → All P (sort ranges) → All P ranges
  unfolding sort
  All-sort [] all = tt
  All-sort (x ∷ ranges) all =
      let (p, rest) = All-insert x (sort ranges) all in (p, All-sort ranges rest)

insert-Ascends : (x : Range) (ranges : List Range) → Ascends ranges → Ascends (insert x ranges)
unfolding insert
insert-Ascends x [] ascends = (tt, tt)
insert-Ascends x (y ∷ ranges) (least, ascends) = elim (Bool-cases (before x y)) [
  | inl e ↦
      let le = before-le x y e in
      let after = All-map (λ z. y.0 ≤ z.0) (λ z. x.0 ≤ z.0) ranges (λ z h. omega arith) least in
      rw e ((le, after), (least, ascends))
  | inr e ↦ rw e (
    insert-All (λ z. y.0 ≤ z.0) x ranges (before-ge x y e) least,
    insert-Ascends x ranges ascends,
  )
]

sort-Ascends : (ranges : List Range) → Ascends (sort ranges)
unfolding sort
sort-Ascends [] = tt
sort-Ascends (x ∷ ranges) = insert-Ascends x (sort ranges) (sort-Ascends ranges)

insert-Separate :
    (x : Range) (ranges : List Range)
    → All (Apart x) ranges
    → Separate ranges
    → Separate (insert x ranges)
unfolding insert
insert-Separate x [] all separate = (tt, tt)
insert-Separate x (y ∷ ranges) (first, all) (others, separate) = elim (Bool-cases (before x y)) [
  | inl e ↦ rw e ((first, all), (others, separate))
  | inr e ↦ rw e (
    insert-All (Apart y) x ranges (Apart-swap x y first) others,
    insert-Separate x ranges all separate,
  )
]

Separate-insert :
    (x : Range) (ranges : List Range)
    → Separate (insert x ranges)
    → All (Apart x) ranges × Separate ranges
unfolding insert
Separate-insert x [] separate = separate
Separate-insert x (y ∷ ranges) separate = elim (Bool-cases (before x y)) [
  | inl e ↦ rw e at separate
  | inr e ↦
      let (others, rest) = rw e at separate in
      let (first, more) = All-insert (Apart y) x ranges others in
      let (all, inner) = Separate-insert x ranges rest in
      ((Apart-swap y x first, all), (more, inner))
]

sort-Separate : (ranges : List Range) → Separate ranges → Separate (sort ranges)
unfolding sort
sort-Separate [] separate = tt
sort-Separate (x ∷ ranges) (all, separate) =
    insert-Separate x (sort ranges) (sort-All (Apart x) ranges all) (sort-Separate ranges separate)

Separate-sort : (ranges : List Range) → Separate (sort ranges) → Separate ranges
unfolding sort
Separate-sort [] separate = tt
Separate-sort (x ∷ ranges) separate =
    let (all, rest) = Separate-insert x (sort ranges) separate in
    (All-sort (Apart x) ranges all, Separate-sort ranges rest)

-- A range that ends before its neighbour ends before all that follow.
apart_after :
    (x : Range) (ranges : List Range)
    → apart (x ∷ ranges) ≡ true
    → All IsOrdered ranges
    → All (λ y. x.1 ≤ y.0) ranges × (apart ranges ≡ true)
unfolding apart
apart_after x [] e ordered = (tt, refl)
apart_after x (y ∷ ranges) e (o, ordered) = elim (Bool-cases (ltb y.0 x.1)) [
  | inl over ↦ absurd (let f = rw over at e in cc)
  | inr fits ↦
      let rest = rw fits at e in
      let (after, _) = apart_after y ranges rest ordered in
      let le : x.1 ≤ y.0 = ground arith in
      ((le, All-map (λ z. y.1 ≤ z.0) (λ z. x.1 ≤ z.0) ranges (λ z h. omega arith) after), rest)
]

apart-Separate :
    (ranges : List Range) → apart ranges ≡ true → All IsOrdered ranges → Separate ranges
apart-Separate [] e ordered = tt
apart-Separate (x ∷ ranges) e (_, ordered) =
    let (after, rest) = apart_after x ranges e ordered in
    (
      All-map (λ y. x.1 ≤ y.0) (Apart x) ranges (λ y le. inl le) after,
      apart-Separate ranges rest ordered,
    )

Separate-apart :
    (ranges : List Range)
    → Ascends ranges
    → All IsNonempty ranges
    → Separate ranges
    → apart ranges ≡ true
unfolding apart
Separate-apart [] ascends nonempty separate = refl
Separate-apart (x ∷ []) ascends nonempty separate = refl
Separate-apart (x ∷ y ∷ ranges) ((le, _), ascends) (_, nonempty) ((first, _), separate) =
    let fits : ltb y.0 x.1 ≡ false = elim first [
      | inl ends ↦ ground arith
      | inr ends ↦ absurd (omega (arith, nonempty.0))
    ] in
    rw fits (Separate-apart (y ∷ ranges) ascends nonempty separate)

pub validate_tensor_ranges-Separate :
    (tensors : Tensors)
    → All IsOrdered (map range_of tensors)
    → validate_tensor_ranges tensors ≡ true
    → Separate (map range_of tensors)
unfolding validate_tensor_ranges
validate_tensor_ranges-Separate tensors ordered e =
    let ranges = map range_of tensors in
    Separate-sort ranges (apart-Separate (sort ranges) e (sort-All IsOrdered ranges ordered))

-- For tensors that are not empty, `validate_tensor_ranges` returns where the ranges of every two of them
-- have no byte in common, and throws otherwise.
pub validate_tensor_ranges_iff :
    (tensors : Tensors)
    → All IsNonempty (map range_of tensors)
    → (validate_tensor_ranges tensors ≡ true) ↔ Separate (map range_of tensors)
unfolding validate_tensor_ranges
validate_tensor_ranges_iff tensors nonempty =
    let ranges = map range_of tensors in
    (
      validate_tensor_ranges-Separate tensors
          (All-map IsNonempty IsOrdered ranges (λ r less. omega arith) nonempty),
      λ separate.
          Separate-apart (sort ranges) (sort-Ascends ranges) (sort-All IsNonempty ranges nonempty)
            (sort-Separate ranges separate),
    )
