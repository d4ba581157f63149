-- ===== src/Tokenizer/Partition.antt =====
-- The fragments of a text, special tokens and raw text in turn, are decoded to the text.
use kraken_infer.Base.{
  ℕ, zero, suc, ◌+◌, ◌-◌, ◌≤◌, ◌<◌, ◌≡◌, refl, sym, ap, ◌∙◌, ◌⊎◌, inl, inr, Bool, true, false, not,
  ◌&&◌, List, [], ◌∷◌, ◌++◌, append_assoc, append-nil, pos, negsuc, ltb, leb, if◌then◌else◌, length,
  take, drop, take-drop-append, drop-drop, get_or, starts_with, starts_with-eq-append,
  starts_with-le, All, All-take, All-drop, ok, Bool-cases, and-left, and-right, arith,
}
use kraken_infer.Tokenizer.Bytes.{byte_encoder}
use kraken_infer.Tokenizer.Words.{split_qwen35_words}
use kraken_infer.Tokenizer.Vocabulary.{GgufTokenizer}
use kraken_infer.Tokenizer.Special.{
  Fragment, SpecialMatch, match_special, raw_fragment, token_fragment, partition_from,
}
use kraken_infer.Tokenizer.Codec.{
  words_ids, fragment_ids, fragments_ids, decode_token, gguf_decode_token_text,
}
use kraken_infer.Tokenizer.Decoding.{AreBytes}
use kraken_infer.Tokenizer.Merges.{IsKnown, KnowsMerges}
use kraken_infer.Tokenizer.Spelling.{Spells, Spells-append, Spells-one, words_ids-Spells}
use kraken_infer.Tokenizer.Tiling.{Slices, slices, split_qwen35_words-Slices}

-- A special token of the vocabulary that is decoded to its own text.
abbrev pub IsPlain : GgufTokenizer → ℕ → Type 0
IsPlain tokenizer id =
    (id < length tokenizer.tokens)
    × (decode_token (get_or tokenizer.tokens id []) ≡ get_or tokenizer.tokens id [])

-- What is found at a place: nothing, or a plain token that stands there.
abbrev IsMatch : GgufTokenizer → List ℕ → SpecialMatch → Type 0
IsMatch tokenizer rest (negsuc n, count) = Unit
IsMatch tokenizer rest (pos id, count) =
    IsPlain tokenizer id
    × (0 < count)
    × (count ≡ length (get_or tokenizer.tokens id []))
    × (starts_with rest (get_or tokenizer.tokens id []) ≡ true)

IsMatch-if :
    (tokenizer : GgufTokenizer) (rest : List ℕ) (b : Bool) (x y : SpecialMatch)
    → (b ≡ true → IsMatch tokenizer rest x)
    → IsMatch tokenizer rest y
    → IsMatch tokenizer rest (if b then x else y)
IsMatch-if tokenizer rest true x y mx my = mx refl
IsMatch-if tokenizer rest false x y mx my = my

not-leb : (a b : ℕ) → not (leb a b) ≡ true → b < a
not-leb a b e = ground arith

match_special-IsMatch :
    (tokenizer : GgufTokenizer) (rest : List ℕ) (ids : List ℕ) (found : SpecialMatch)
    → All (IsPlain tokenizer) ids
    → IsMatch tokenizer rest found
    → IsMatch tokenizer rest (match_special tokenizer.tokens rest ids found)
unfolding match_special
match_special-IsMatch tokenizer rest [] found plain matched = matched
match_special-IsMatch tokenizer rest (id ∷ ids) found (here, plain) matched =
    let token = get_or tokenizer.tokens id [] in
    let longer = not (leb (length token) found.1) in
    let stands = starts_with rest token in
    match_special-IsMatch tokenizer rest ids _ plain (
      IsMatch-if tokenizer rest (longer && stands) (pos id, length token) found
        (λ e.
          let more = not-leb (length token) found.1 (and-left longer stands e) in
          (here, omega (arith, more), refl, and-right longer stands e))
        matched)

module _ (tokenizer : GgufTokenizer) (merges : KnowsMerges tokenizer)
    (symbols : (byte : ℕ) → byte < 256 → IsKnown tokenizer (byte_encoder byte)) (text : List ℕ)
    (bytes : AreBytes text) where
  words-Spells :
      (part : List ℕ)
      → AreBytes part
      → Spells tokenizer (words_ids tokenizer (split_qwen35_words part)) part
  words-Spells part all = go (split_qwen35_words-Slices part all)
    where
      go :
          Slices part (split_qwen35_words part)
          → Spells tokenizer (words_ids tokenizer (split_qwen35_words part)) part
      go (slices texts same whole each) =
          rw same (words_ids-Spells tokenizer merges symbols texts each ∙ ap ok whole)

  fragments_ids-append :
      (xs ys : List Fragment)
      → fragments_ids tokenizer text (xs ++ ys)
        ≡ fragments_ids tokenizer text xs ++ fragments_ids tokenizer text ys
  unfolding fragments_ids
  fragments_ids-append [] ys = refl
  fragments_ids-append (x ∷ xs) ys =
      ap (λ ids. fragment_ids tokenizer text x ++ ids) (fragments_ids-append xs ys)
      ∙ sym (
          append_assoc (fragment_ids tokenizer text x) (fragments_ids tokenizer text xs)
            (fragments_ids tokenizer text ys))

  raw_fragment-Spells :
      (raw position : ℕ)
      → raw ≤ position
      → Spells tokenizer
          (fragments_ids tokenizer text (raw_fragment raw position))
          (take (position - raw) (drop raw text))
  unfolding fragments_ids fragment_ids
  raw_fragment-Spells raw position le = elim (Bool-cases (ltb raw position)) [
    | inl some_left ↦
        let part = take (position - raw) (drop raw text) in
        let part_bytes = All-take _ (position - raw) (drop raw text) (All-drop _ raw text bytes) in
        rw (some_left, append-nil (words_ids tokenizer (split_qwen35_words part)))
          (words-Spells part part_bytes)
    | inr none_left ↦
        let done : position - raw ≡ 0 = ground arith in
        rw (none_left, done) (unfold gguf_decode_token_text in refl)
  ]

  token_fragment-Spells :
      (id position count : ℕ) (fragments : List Fragment) {rest : List ℕ}
      → IsPlain tokenizer id
      → Spells tokenizer (fragments_ids tokenizer text fragments) rest
      → Spells tokenizer
          (fragments_ids tokenizer text (token_fragment (pos id) position count ∷ fragments))
          (get_or tokenizer.tokens id [] ++ rest)
  unfolding fragments_ids fragment_ids
  token_fragment-Spells id position count fragments {rest} (less, plain) spells =
      let token = get_or tokenizer.tokens id [] in
      Spells-append tokenizer (pos id ∷ []) (fragments_ids tokenizer text fragments) {a = token}
        {b = rest} (Spells-one tokenizer id token less refl ∙ ap ok plain) spells

  -- What stands in front of the raw text is passed: `skip` is 0, or leads to where the raw text begins.
  abbrev Starts : ℕ → ℕ → ℕ → Type 0
  Starts skip raw position = ((raw ≤ position) × (skip ≡ 0)) ⊎ (raw ≡ position + skip)

  drop_next :
      (position ch : ℕ) (rest : List ℕ)
      → ch ∷ rest ≡ drop position text
      → rest ≡ drop (position + 1) text
  drop_next position ch rest e = ap (drop 1) e ∙ drop-drop 1 position text

  -- A round: nothing was found, or a token, in front of which the raw text ends.
  found-Spells :
      (raw position ch : ℕ) (rest : List ℕ)
      → ch ∷ rest ≡ drop position text
      → position + length (ch ∷ rest) ≡ length text
      → raw ≤ position
      → (found : SpecialMatch) → IsMatch tokenizer (ch ∷ rest) found
      → (on : List Fragment) (behind : ℕ → List Fragment)
      → Spells tokenizer (fragments_ids tokenizer text on) (drop raw text)
      → ((count : ℕ)
          → 0 < count
          → position + count ≤ length text
          → Spells tokenizer
              (fragments_ids tokenizer text (behind count))
              (drop (position + count) text))
      → Spells tokenizer
          (fragments_ids tokenizer text (elim found.0 [
            | negsuc n ↦ on
            | pos id ↦
                raw_fragment raw position
                ++ token_fragment (pos id) position found.1 ∷ behind found.1
          ]))
          (drop raw text)
  found-Spells raw position ch rest left size le (negsuc n, count) matched on behind goes later =
      goes
  found-Spells raw position ch rest left size le (pos id, count) (plain, some_bytes, same, stands)
        on behind goes later =
      let token = get_or tokenizer.tokens id [] in
      let fits : position + count ≤ length text =
        omega (arith, starts_with-le (ch ∷ rest) token stands, same, size) in
      let split =
        sym (drop-drop count position text)
        ∙ ap (drop count) (sym left)
        ∙ ap (λ n. drop n (ch ∷ rest)) same in
      let here =
        ap (λ t. token ++ t) split ∙ starts_with-eq-append (ch ∷ rest) token stands ∙ left in
      let first = raw_fragment-Spells raw position le in
      let second =
        token_fragment-Spells id position count (behind count) {rest = drop (position + count) text}
          plain (later count some_bytes fits) in
      let both =
        Spells-append tokenizer (fragments_ids tokenizer text (raw_fragment raw position))
          (fragments_ids tokenizer text (token_fragment (pos id) position count ∷ behind count))
          {a = take (position - raw) (drop raw text)} {b = token ++ drop (position + count) text}
          first second in
      rw
        (fragments_ids-append (raw_fragment raw position)
          (token_fragment (pos id) position count ∷ behind count))
        (both
          ∙ ap ok (
              ap (λ t. take (position - raw) (drop raw text) ++ t) here
              ∙ take-drop-append raw position text le))

  module _ (specials : List ℕ) (plain : All (IsPlain tokenizer) specials) where
    pub partition_from-Spells :
        (skip raw position : ℕ) (rest : List ℕ)
        → rest ≡ drop position text
        → position + length rest ≡ length text
        → raw ≤ length text
        → Starts skip raw position
        → Spells tokenizer
            (fragments_ids tokenizer text
              (partition_from tokenizer.tokens specials skip raw position rest))
            (drop raw text)
    unfolding partition_from
    partition_from-Spells skip raw position [] left size inside starts =
        let le : raw ≤ position = ground (arith, starts) in
        let whole =
          sym (append-nil (take (position - raw) (drop raw text)))
          ∙ ap (λ t. take (position - raw) (drop raw text) ++ t) left
          ∙ take-drop-append raw position text le in
        raw_fragment-Spells raw position le ∙ ap ok whole
    partition_from-Spells (suc skip) raw position (ch ∷ rest) left size inside starts =
        let next : Starts skip raw (position + 1) = ground (arith, starts) in
        partition_from-Spells skip raw (position + 1) rest (drop_next position ch rest left)
          (omega (arith, size)) inside next
    partition_from-Spells zero raw position (ch ∷ rest) left size inside starts =
        let le : raw ≤ position = ground (arith, starts) in
        let next = drop_next position ch rest left in
        let small : position + 1 + length rest ≡ length text = omega (arith, size) in
        found-Spells raw position ch rest left size le
          (match_special tokenizer.tokens (ch ∷ rest) specials (negsuc 0, 0))
          (match_special-IsMatch tokenizer (ch ∷ rest) specials (negsuc 0, 0) plain tt)
          (partition_from tokenizer.tokens specials 0 raw (position + 1) rest)
          (λ count.
            partition_from tokenizer.tokens specials (count - 1) (position + count) (position + 1)
              rest)
          (partition_from-Spells 0 raw (position + 1) rest next small inside
            (inl (omega arith, refl)))
          (λ count some_bytes fits.
            partition_from-Spells (count - 1) (position + count) (position + 1) rest next small fits
              (inr (omega (arith, some_bytes))))
