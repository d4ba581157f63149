-- ===== src/Gguf/Moves.antt =====
-- What every read does to the position: it moves forward and stays inside the file.
use kraken_infer.Base.{
  ℕ, zero, suc, ◌+◌, ◌≤◌, ◌≡◌, refl, ◌∙◌, ap, List, [], ◌∷◌, wrap, wrap_lem, u64_max, length,
  Outcome, ok, err, Error, runtime_error, guard, ◌>>=◌, >>=-eq-ok, ok-injective, arith,
}
use mathlib.Core.Path.{subst}
use kraken_infer.Gguf.Reader.{
  Reader, ensure, read_bytes, read_pod, read_signed, boolean, read_string,
}
use kraken_infer.Gguf.Value.{
  unsigned, signed, real, flag, text, unsigneds, signeds, reals, flags, texts, Variant, ValueKind,
  uint8, int8, uint16, int16, uint32, int32, float32, bool_value, string, array, uint64, int64,
  float64, read_items, map_read, read_scalar, get_unsigned, get_signed, get_real, get_flag,
  get_text, read_item, read_array, read_elements, read_array_value, read_kind, read_value,
  to_value_kind,
}

pub record IsReader (r : Reader) : Type 0 where
  pub small : length r.bytes ≤ u64_max
  pub inside : r.position ≤ length r.bytes

pub record Moves (r r' : Reader) : Type 0 where
  pub same : r'.bytes ≡ r.bytes
  pub later : r.position ≤ r'.position
  pub inside : r'.position ≤ length r.bytes

pub Moves-IsReader : {r r' : Reader} → IsReader r → Moves r r' → IsReader r'
Moves-IsReader i m = record { small = rw m.same i.small; inside = rw m.same m.inside }

Moves-trans : {r s t : Reader} → Moves r s → Moves s t → Moves r t
Moves-trans m n = record {
  same = n.same ∙ m.same;
  later = (let a = m.later in let b = n.later in omega arith);
  inside = rw m.same at n.inside;
}

-- A read that only moves.
abbrev pub Safe : {A : Type 0} → (Reader → Outcome (A × Reader)) → Type 0
Safe {A} f = (r : Reader) (x : A) (r' : Reader) → IsReader r → f r ≡ ok (x, r') → Moves r r'

pair_snd : {A : Type 0} {a b : A} {r s : Reader} → ◌≡◌ {A = A × Reader} (a, r) (b, s) → r ≡ s
pair_snd e = ap (λ p. p.1) e

pub Safe-ok : {A : Type 0} (a : A) → Safe (λ r. ok (a, r))
Safe-ok a r x r' i e =
    subst (Moves r) (pair_snd (ok-injective e))
      (record { same = refl; later = omega arith; inside = i.inside })

pub Safe-bind :
    {A B : Type 0} (f : Reader → Outcome (A × Reader)) (g : A → Reader → Outcome (B × Reader))
    → Safe f
    → ((a : A) → Safe (g a))
    → Safe (λ r. f r >>= λ p. g p.0 p.1)
Safe-bind f g sf sg r x r' i e =
    let (p, first, rest) = >>=-eq-ok (f r) _ e in
    let m = sf r p.0 p.1 i first in Moves-trans m (sg p.0 p.1 x r' (Moves-IsReader i m) rest)

-- A test or a computation that does not read.
pub Safe-check :
    {A B : Type 0} (m : Outcome A) (g : A → Reader → Outcome (B × Reader))
    → ((a : A) → Safe (g a))
    → Safe (λ r. m >>= λ a. g a r)
Safe-check m g sg r x r' i e = let (a, first, rest) = >>=-eq-ok m _ e in sg a r x r' i rest

pub Safe-err : {A : Type 0} (why : Error) → Safe {A = A} (λ r. err why)
Safe-err why r x r' i e = absurd (cc)

ensure-ok : (r : Reader) (count : ℕ) → ensure r count ≡ ok tt → r.position + count ≤ length r.bytes
unfolding ensure
ensure-ok r count e = ground arith

pub read_bytes-Safe : (count : ℕ) → Safe (λ r. read_bytes r count)
unfolding read_bytes
read_bytes-Safe count r x r' i e =
    let (u, checked, rest) = >>=-eq-ok (ensure r count) _ e in
    let fits = ensure-ok r count checked in
    let small = i.small in
    let moved : wrap (r.position + count) ≡ r.position + count = wrap_lem _ (omega arith) in
    subst (Moves r) (pair_snd (ok-injective rest))
      (record { same = refl; later = rw moved (omega arith); inside = rw moved fits })

pub read_pod-Safe : (count : ℕ) → Safe (read_pod count)
unfolding read_pod
read_pod-Safe count =
    Safe-bind (λ r. read_bytes r count) (λ raw r. ok (_, r)) (read_bytes-Safe count)
      (λ raw. Safe-ok _)

read_signed-Safe : (count : ℕ) → Safe (read_signed count)
unfolding read_signed
read_signed-Safe count =
    Safe-bind (read_pod count) (λ n r. ok (_, r)) (read_pod-Safe count) (λ n. Safe-ok _)

boolean-Safe : Safe boolean
unfolding boolean
boolean-Safe =
    Safe-bind (read_pod 1) (λ value r. guard _ runtime_error >>= λ u. ok (_, r)) (read_pod-Safe 1)
      (λ value. Safe-check (guard _ runtime_error) (λ u r. ok (_, r)) (λ u. Safe-ok _))

pub read_string-Safe : Safe read_string
unfolding read_string
read_string-Safe =
    Safe-bind (read_pod 8) (λ size r. guard _ runtime_error >>= λ u. read_bytes r size)
      (read_pod-Safe 8)
      (λ size.
        Safe-check (guard _ runtime_error) (λ u r. read_bytes r size) (λ u. read_bytes-Safe size))

pub read_items-Safe :
    {A : Type 0} (item : Reader → Outcome (A × Reader)) (count : ℕ)
    → Safe item
    → Safe (read_items item count)
unfolding read_items
read_items-Safe item zero s = Safe-ok []
read_items-Safe item (suc count) s =
    Safe-bind item (λ x r. read_items item count r >>= λ p. ok (x ∷ p.0, p.1)) s
      (λ x.
        Safe-bind (read_items item count) (λ xs r. ok (x ∷ xs, r)) (read_items-Safe item count s)
          (λ xs. Safe-ok _))

map_read-Safe :
    {A Real : Type 0} (f : A → Variant Real) (m : Reader → Outcome (A × Reader))
    → Safe m
    → Safe (λ r. map_read f (m r))
unfolding map_read
map_read-Safe f m s = Safe-bind m (λ x r. ok (f x, r)) s (λ x. Safe-ok _)

module _ {Real : Type 0} (float_value double_value : ℕ → Real) where
  read_scalar-Safe : (kind : ValueKind) → Safe (read_scalar float_value double_value kind)
  unfolding read_scalar
  read_scalar-Safe uint8 = map_read-Safe unsigned (read_pod 1) (read_pod-Safe 1)
  read_scalar-Safe int8 = map_read-Safe signed (read_signed 1) (read_signed-Safe 1)
  read_scalar-Safe uint16 = map_read-Safe unsigned (read_pod 2) (read_pod-Safe 2)
  read_scalar-Safe int16 = map_read-Safe signed (read_signed 2) (read_signed-Safe 2)
  read_scalar-Safe uint32 = map_read-Safe unsigned (read_pod 4) (read_pod-Safe 4)
  read_scalar-Safe int32 = map_read-Safe signed (read_signed 4) (read_signed-Safe 4)
  read_scalar-Safe float32 =
      map_read-Safe (λ n. real (float_value n)) (read_pod 4) (read_pod-Safe 4)
  read_scalar-Safe bool_value = map_read-Safe flag boolean boolean-Safe
  read_scalar-Safe string = map_read-Safe text read_string read_string-Safe
  read_scalar-Safe uint64 = map_read-Safe unsigned (read_pod 8) (read_pod-Safe 8)
  read_scalar-Safe int64 = map_read-Safe signed (read_signed 8) (read_signed-Safe 8)
  read_scalar-Safe float64 =
      map_read-Safe (λ n. real (double_value n)) (read_pod 8) (read_pod-Safe 8)
  read_scalar-Safe array = Safe-err runtime_error

  read_item-Safe :
      {A : Type 0} (get : Variant Real → Outcome A) (kind : ValueKind)
      → Safe (read_item float_value double_value get kind)
  unfolding read_item
  read_item-Safe get kind =
      Safe-bind (read_scalar float_value double_value kind) (λ v r. get v >>= λ x. ok (x, r))
        (read_scalar-Safe kind) (λ v. Safe-check (get v) (λ x r. ok (x, r)) (λ x. Safe-ok x))

  read_array-Safe :
      {A : Type 0} (make : List A → Variant Real) (get : Variant Real → Outcome A)
      (kind : ValueKind) (size : ℕ)
      → Safe (read_array float_value double_value make get kind size)
  unfolding read_array
  read_array-Safe make get kind size =
      map_read-Safe make (read_items (read_item float_value double_value get kind) size) (
        read_items-Safe (read_item float_value double_value get kind) size
          (read_item-Safe get kind))

  read_elements-Safe :
      (kind : ValueKind) (size : ℕ) → Safe (read_elements float_value double_value kind size)
  unfolding read_elements
  read_elements-Safe uint8 size = read_array-Safe unsigneds get_unsigned uint8 size
  read_elements-Safe uint16 size = read_array-Safe unsigneds get_unsigned uint16 size
  read_elements-Safe uint32 size = read_array-Safe unsigneds get_unsigned uint32 size
  read_elements-Safe uint64 size = read_array-Safe unsigneds get_unsigned uint64 size
  read_elements-Safe int8 size = read_array-Safe signeds get_signed int8 size
  read_elements-Safe int16 size = read_array-Safe signeds get_signed int16 size
  read_elements-Safe int32 size = read_array-Safe signeds get_signed int32 size
  read_elements-Safe int64 size = read_array-Safe signeds get_signed int64 size
  read_elements-Safe float32 size = read_array-Safe reals get_real float32 size
  read_elements-Safe float64 size = read_array-Safe reals get_real float64 size
  read_elements-Safe bool_value size = read_array-Safe flags get_flag bool_value size
  read_elements-Safe string size = read_array-Safe texts get_text string size
  read_elements-Safe array size = Safe-err runtime_error

  read_array_value-Safe : (kind : ValueKind) → Safe (read_array_value float_value double_value kind)
  unfolding read_array_value
  read_array_value-Safe array = Safe-err runtime_error
  read_array_value-Safe kind =
      Safe-bind (read_pod 8)
        (λ size r. read_elements float_value double_value kind size r >>= λ p. ok (_, p.1))
        (read_pod-Safe 8)
        (λ size.
          Safe-bind (read_elements float_value double_value kind size) (λ v r. ok (_, r))
            (read_elements-Safe kind size) (λ v. Safe-ok _))

  read_kind-Safe : (kind : ValueKind) → Safe (read_kind float_value double_value kind)
  unfolding read_kind
  read_kind-Safe array =
      Safe-bind (read_pod 4)
        (λ code r. to_value_kind code >>= λ kind. read_array_value float_value double_value kind r)
        (read_pod-Safe 4)
        (λ code.
          Safe-check (to_value_kind code)
            (λ kind r. read_array_value float_value double_value kind r) read_array_value-Safe)
  read_kind-Safe kind =
      Safe-bind (read_scalar float_value double_value kind) (λ v r. ok (_, r))
        (read_scalar-Safe kind) (λ v. Safe-ok _)

  pub read_value-Safe : Safe (read_value float_value double_value)
  unfolding read_value
  read_value-Safe =
      Safe-bind (read_pod 4)
        (λ code r. to_value_kind code >>= λ kind. read_kind float_value double_value kind r)
        (read_pod-Safe 4)
        (λ code.
          Safe-check (to_value_kind code) (λ kind r. read_kind float_value double_value kind r)
            read_kind-Safe)
