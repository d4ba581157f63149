-- ===== src/Base64/Blanks.antt =====
-- Blanks and line ends in a text in base64 are skipped.
use kraken_infer.Base.{
  ℕ, ◌≡◌, refl, sym, ap, ◌∙◌, inl, inr, true, false, List, [], ◌∷◌, if◌then◌else◌, Outcome, ok, err,
  ◌>>=◌, Bool-cases,
}
use kraken_infer.Base64.Decode.{Decoder, is_blank, decode_character, decode_loop}

-- The text without its blanks.
unfoldable pub without_blanks : List ℕ → List ℕ
unfolding is_blank
without_blanks [] = []
without_blanks (ch ∷ input) =
    if is_blank ch then without_blanks input else ch ∷ without_blanks input

bind_same :
    {A B : Type 0} (x : Outcome A) (f g : A → Outcome B)
    → ((a : A) → f a ≡ g a)
    → (x >>= f) ≡ (x >>= g)
bind_same (err why) f g same = refl
bind_same (ok a) f g same = same a

without_blanks_other :
    (ch : ℕ) (input : List ℕ)
    → is_blank ch ≡ false
    → without_blanks (ch ∷ input) ≡ ch ∷ without_blanks input
unfolding without_blanks
without_blanks_other ch input other = rw other refl

decode_loop_blank :
    (ch : ℕ) (input : List ℕ) (d : Decoder)
    → is_blank ch ≡ true
    → decode_loop (without_blanks (ch ∷ input)) d ≡ decode_loop (without_blanks input) d
unfolding without_blanks
decode_loop_blank ch input d blank = rw blank refl

decode_loop_skips :
    (ch : ℕ) (input : List ℕ) (d : Decoder)
    → is_blank ch ≡ true
    → decode_loop (ch ∷ input) d ≡ decode_loop input d
unfolding decode_loop
decode_loop_skips ch input d blank = rw blank refl

decode_loop_goes :
    (ch : ℕ) (input : List ℕ) (d : Decoder)
    → decode_loop (ch ∷ input) d ≡ (decode_character ch d >>= decode_loop input)
unfolding decode_loop
decode_loop_goes ch input d = refl

pub decode_loop-blanks :
    (input : List ℕ) (d : Decoder) → decode_loop (without_blanks input) d ≡ decode_loop input d
unfolding without_blanks
decode_loop-blanks [] d = refl
decode_loop-blanks (ch ∷ input) d = elim (Bool-cases (is_blank ch)) [
  | inl blank ↦
      decode_loop_blank ch input d blank
      ∙ decode_loop-blanks input d
      ∙ sym (decode_loop_skips ch input d blank)
  | inr other ↦
      ap (λ text. decode_loop text d) (without_blanks_other ch input other)
      ∙ decode_loop_goes ch (without_blanks input) d
      ∙ bind_same (decode_character ch d) _ _ (decode_loop-blanks input)
      ∙ sym (decode_loop_goes ch input d)
]
