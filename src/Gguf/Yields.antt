-- ===== src/Gguf/Yields.antt =====
-- What holds of every result of a read.
use kraken_infer.Base.{
  ℕ, zero, suc, ◌≡◌, refl, ap, List, All, length, Outcome, ok, ◌>>=◌, >>=-eq-ok, ok-injective,
}
use mathlib.Core.Path.{subst}
use kraken_infer.Gguf.Reader.{Reader}
use kraken_infer.Gguf.Value.{read_items}

pub read_items-All :
    {A : Type 0} (P : A → Type 0) (item : Reader → Outcome (A × Reader))
    → ((r : Reader) (x : A) (r' : Reader) → item r ≡ ok (x, r') → P x)
    → (count : ℕ) (r : Reader) (xs : List A) (r' : Reader) → read_items item count r ≡ ok (xs, r')
    → All P xs × (length xs ≡ count)
unfolding read_items
read_items-All P item sound zero r xs r' e =
    subst (λ ys. All P ys × (length ys ≡ zero)) (ap (λ p. p.0) (ok-injective e)) (tt, refl)
read_items-All P item sound (suc count) r xs r' e =
    let ((x, r1), first, rest) = >>=-eq-ok (item r) _ e in
    let ((ys, r2), others, last) = >>=-eq-ok (read_items item count r1) _ rest in
    let (all, size) = read_items-All P item sound count r1 ys r2 others in
    subst (λ zs. All P zs × (length zs ≡ suc count)) (ap (λ p. p.0) (ok-injective last))
      ((sound r x r1 first, all), ap suc size)

-- Whatever the read returns has the property.
abbrev pub Yields : {A : Type 0} → (A → Type 0) → (Reader → Outcome (A × Reader)) → Type 0
Yields {A} P f = (r : Reader) (x : A) (r' : Reader) → f r ≡ ok (x, r') → P x

pub Yields-ok : {A : Type 0} (P : A → Type 0) (a : A) → P a → Yields P (λ r. ok (a, r))
Yields-ok P a p r x r' e = subst P (ap (λ q. q.0) (ok-injective e)) p

pub Yields-bind :
    {A B : Type 0} (P : B → Type 0) (f : Reader → Outcome (A × Reader))
    (g : A → Reader → Outcome (B × Reader))
    → ((a : A) → Yields P (g a))
    → Yields P (λ r. f r >>= λ p. g p.0 p.1)
Yields-bind P f g h r x r' e = let (p, first, rest) = >>=-eq-ok (f r) _ e in h p.0 p.1 x r' rest

pub Yields-check :
    {A B : Type 0} (P : B → Type 0) (m : Outcome A) (g : A → Reader → Outcome (B × Reader))
    → ((a : A) → m ≡ ok a → Yields P (g a))
    → Yields P (λ r. m >>= λ a. g a r)
Yields-check P m g h r x r' e = let (a, first, rest) = >>=-eq-ok m _ e in h a first r x r' rest

pub Yields-with :
    {A B : Type 0} (P : B → Type 0) (Q : A → Type 0) (f : Reader → Outcome (A × Reader))
    (g : A → Reader → Outcome (B × Reader))
    → Yields Q f
    → ((a : A) → Q a → Yields P (g a))
    → Yields P (λ r. f r >>= λ p. g p.0 p.1)
Yields-with P Q f g q h r x r' e =
    let (p, first, rest) = >>=-eq-ok (f r) _ e in h p.0 (q r p.0 p.1 first) p.1 x r' rest
