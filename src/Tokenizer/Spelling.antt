-- ===== src/Tokenizer/Spelling.antt =====
-- The ids of a text are decoded to the text: for a word, and for the words of a text.
use kraken_infer.Base.{
  ℕ, ◌<◌, ◌≡◌, refl, sym, ap, ◌∙◌, inl, inr, true, false, List, [], ◌∷◌, ◌++◌, append_assoc,
  append-nil, ℤ, pos, map, lt→ltb, length, get_or, All, ok, >>=-eq-ok, ok-injective, Bool-cases,
}
use kraken_infer.Tokenizer.Bytes.{byte_encoder, byte_encoded}
use kraken_infer.Tokenizer.Vocabulary.{GgufTokenizer, valid_token_id, token_at}
use kraken_infer.Tokenizer.Bpe.{part_ids, parts_ids, bpe_parts, bpe_encode_word}
use kraken_infer.Tokenizer.Codec.{words_ids, decode_token, gguf_decode_token_text}
use kraken_infer.Tokenizer.Decoding.{AreBytes}
use kraken_infer.Tokenizer.Merges.{IsKnown, IsPart, KnowsMerges, decode_word, bpe_parts-IsPart}

-- Ids that are decoded to a text, control tokens included.
abbrev pub Spells : GgufTokenizer → List ℤ → List ℕ → Type 0
Spells tokenizer ids text = gguf_decode_token_text tokenizer ids false ≡ ok text

-- The texts of a list, one behind the other.
abbrev pub joined : List (List ℕ) → List ℕ
joined [] = []
joined (text ∷ texts) = text ++ joined texts

module _ (tokenizer : GgufTokenizer) where
  Spells-id :
      (id : ℤ) (ids : List ℤ) (text : List ℕ)
      → valid_token_id tokenizer id ≡ true
      → Spells tokenizer ids text
      → Spells tokenizer (id ∷ ids) (decode_token (token_at tokenizer id) ++ text)
  unfolding gguf_decode_token_text
  Spells-id id ids text valid spells = rw (valid, spells) refl

  pub Spells-one :
      (id : ℕ) (token : List ℕ)
      → id < length tokenizer.tokens
      → get_or tokenizer.tokens id [] ≡ token
      → Spells tokenizer (pos id ∷ []) (decode_token token)
  unfolding gguf_decode_token_text valid_token_id
  Spells-one id token less same =
      rw (lt→ltb id (length tokenizer.tokens) less, same) (ap ok (append-nil (decode_token token)))

  Spells-first :
      (id : ℤ) (ids : List ℤ) {text : List ℕ}
      → Spells tokenizer (id ∷ ids) text
      → (rest : List ℕ) × (valid_token_id tokenizer id ≡ true)
        × Spells tokenizer ids rest
        × (text ≡ decode_token (token_at tokenizer id) ++ rest)
  unfolding gguf_decode_token_text
  Spells-first id ids {text} e = elim (Bool-cases (valid_token_id tokenizer id)) [
    | inr wrong ↦ absurd (let f = rw wrong at e in cc)
    | inl valid ↦
        let (rest, decodes, same) =
          >>=-eq-ok (gguf_decode_token_text tokenizer ids false) _ (rw valid at e) in
        (rest, valid, decodes, sym (ok-injective same))
  ]

  Spells-nil : {a : List ℕ} → Spells tokenizer [] a → a ≡ []
  unfolding gguf_decode_token_text
  Spells-nil e = sym (ok-injective e)

  pub Spells-append :
      (xs ys : List ℤ) {a b : List ℕ}
      → Spells tokenizer xs a
      → Spells tokenizer ys b
      → Spells tokenizer (xs ++ ys) (a ++ b)
  Spells-append [] ys {a} {b} e f = rw (Spells-nil e) f
  Spells-append (id ∷ xs) ys {a} {b} e f =
      let (rest, valid, decodes, same) = Spells-first id xs {text = a} e in
      let spells =
        Spells-id id (xs ++ ys) (rest ++ b) valid
          (Spells-append xs ys {a = rest} {b = b} decodes f) in
      spells
      ∙ ap ok
          (sym (ap (λ t. t ++ b) same ∙ append_assoc (decode_token (token_at tokenizer id)) rest b))

  part_ids-Spells :
      (part : List ℕ)
      → IsPart tokenizer part
      → Spells tokenizer (part_ids tokenizer.token_to_id part) (decode_token part)
  unfolding part_ids
  part_ids-Spells part (piece, _, _, (id, found, less, same)) =
      rw (found, part_ids) (Spells-one id part less same)

  parts_ids-Spells :
      (word : List (List ℕ))
      → All (IsPart tokenizer) word
      → Spells tokenizer (parts_ids tokenizer.token_to_id word) (decode_word word)
  unfolding parts_ids
  parts_ids-Spells [] parts = unfold gguf_decode_token_text in refl
  parts_ids-Spells (part ∷ word) (p, parts) =
      Spells-append (part_ids tokenizer.token_to_id part) (parts_ids tokenizer.token_to_id word)
        {a = decode_token part} {b = decode_word word} (part_ids-Spells part p)
        (parts_ids-Spells word parts)

  module _ (merges : KnowsMerges tokenizer)
      (symbols : (byte : ℕ) → byte < 256 → IsKnown tokenizer (byte_encoder byte)) where
    bpe_encode_word-Spells :
        (text : List ℕ)
        → AreBytes text
        → Spells tokenizer (bpe_encode_word tokenizer (byte_encoded text)) text
    unfolding bpe_encode_word
    bpe_encode_word-Spells text all =
        let (parts, same) = bpe_parts-IsPart tokenizer merges symbols text all in
        parts_ids-Spells (bpe_parts tokenizer.merge_ranks (byte_encoded text)) parts ∙ ap ok same

    pub words_ids-Spells :
        (texts : List (List ℕ))
        → All AreBytes texts
        → Spells tokenizer (words_ids tokenizer (map byte_encoded texts)) (joined texts)
    unfolding words_ids
    words_ids-Spells [] all = unfold gguf_decode_token_text in refl
    words_ids-Spells (text ∷ texts) (bytes, all) =
        Spells-append (bpe_encode_word tokenizer (byte_encoded text))
          (words_ids tokenizer (map byte_encoded texts)) {a = text} {b = joined texts}
          (bpe_encode_word-Spells text bytes) (words_ids-Spells texts all)
