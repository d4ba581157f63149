-- ===== src/Tokenizer/Merges.antt =====
-- Merging keeps the bytes of a word, and every part of it in the vocabulary.
use kraken_infer.Base.{
  ℕ, zero, suc, ◌+◌, ◌<◌, ◌≡◌, refl, sym, ap, ◌∙◌, ◌⊎◌, inl, inr, List, [], ◌∷◌, ◌++◌, append_assoc,
  append-nil, Option, none, some, pos, map, ltb, if◌then◌else◌, length, get_or, All, All-append,
  Bool-cases, Option-cases, arith,
}
use mathlib.Core.Path.{subst}
use kraken_infer.Gguf.File.{find_entry}
use kraken_infer.Tokenizer.Bytes.{byte_encoder, byte_encoded}
use kraken_infer.Tokenizer.Vocabulary.{GgufTokenizer, pair_key}
use kraken_infer.Tokenizer.Bpe.{
  Ranks, is_better, rank_or, int_max, best_from, best_pair, merge_at, bpe_loop, bpe_parts,
}
use kraken_infer.Tokenizer.Codec.{decode_token}
use kraken_infer.Tokenizer.Decoding.{
  AreBytes, byte_encoded-append, decode_token-byte_encoded, utf8_codepoint_strings-byte_encoded,
}

-- A text that the tokenizer has as the token of some id.
abbrev pub IsKnown : GgufTokenizer → List ℕ → Type 0
IsKnown tokenizer token =
    (id : ℕ) × (find_entry token tokenizer.token_to_id ≡ some (pos id))
    × (id < length tokenizer.tokens)
    × (get_or tokenizer.tokens id [] ≡ token)

-- Two texts whose pair has a rank.
abbrev pub IsRanked : Ranks → List ℕ → List ℕ → Type 0
IsRanked ranks first second = (rank : ℕ) × (find_entry (pair_key first second) ranks ≡ some rank)

-- The pair at an index of a word has a rank.
abbrev pub RankedAt : Ranks → ℕ → List (List ℕ) → Type 0
RankedAt ranks i [] = ⊥
RankedAt ranks zero (first ∷ []) = ⊥
RankedAt ranks zero (first ∷ second ∷ word) = IsRanked ranks first second
RankedAt ranks (suc i) (first ∷ word) = RankedAt ranks i word

abbrev Chosen : Ranks → ℕ → Option ℕ → List (List ℕ) → ℕ → Type 0
Chosen ranks k index word i = (index ≡ some i) ⊎ ((j : ℕ) × (i ≡ k + j) × RankedAt ranks j word)

Chosen-later :
    (ranks : Ranks) (k i : ℕ) (index : Option ℕ) (first second : List ℕ) (word : List (List ℕ))
    → Chosen ranks (k + 1) index (second ∷ word) i
    → Chosen ranks k index (first ∷ second ∷ word) i
Chosen-later ranks k i index first second word (inl e) = inl e
Chosen-later ranks k i index first second word (inr (j, same, ranked)) =
    inr (suc j, omega (arith, same), ranked)

Chosen-better :
    (ranks : Ranks) (k i best_rank : ℕ) (index it : Option ℕ) (first second : List ℕ)
    (word : List (List ℕ))
    → find_entry (pair_key first second) ranks ≡ it
    → Chosen ranks k (if is_better it best_rank then some k else index) (first ∷ second ∷ word) i
    → Chosen ranks k index (first ∷ second ∷ word) i
Chosen-better ranks k i best_rank index none first second word e chosen = chosen
Chosen-better ranks k i best_rank index (some rank) first second word e chosen =
    elim (Bool-cases (ltb rank best_rank)) [
      | inr worse ↦ rw worse at chosen
      | inl better ↦ chosen_here (rw better at chosen)
    ]
  where
    chosen_here :
        Chosen ranks k (some k) (first ∷ second ∷ word) i
        → Chosen ranks k index (first ∷ second ∷ word) i
    chosen_here (inl same) = let number : k ≡ i = cc in inr (zero, omega (arith, number), (rank, e))
    chosen_here (inr later) = inr later

best_from-Chosen :
    (ranks : Ranks) (k best_rank : ℕ) (index : Option ℕ) (word : List (List ℕ)) {i : ℕ}
    → best_from ranks k best_rank index word ≡ some i
    → Chosen ranks k index word i
unfolding best_from
best_from-Chosen ranks k best_rank index [] e = inl e
best_from-Chosen ranks k best_rank index (first ∷ []) e = inl e
best_from-Chosen ranks k best_rank index (first ∷ second ∷ word) {i} e =
    let it = find_entry (pair_key first second) ranks in
    let better = is_better it best_rank in
    Chosen-better ranks k i best_rank index it first second word refl (
      Chosen-later ranks k i _ first second word (
        best_from-Chosen ranks (k + 1) (if better then rank_or it best_rank else best_rank)
          (if better then some k else index) (second ∷ word) {i = i} e))

pub best_pair-RankedAt :
    (ranks : Ranks) (word : List (List ℕ)) {i : ℕ}
    → best_pair ranks word ≡ some i
    → RankedAt ranks i word
unfolding best_pair
best_pair-RankedAt ranks word {i} e = go (best_from-Chosen ranks 0 int_max none word {i = i} e)
  where
    go : Chosen ranks 0 none word i → RankedAt ranks i word
    go (inl none_here) = absurd (cc)
    go (inr (j, same, ranked)) =
        let e : j ≡ i = omega (arith, same) in subst (λ n. RankedAt ranks n word) e ranked

-- A part of a word: a known token that spells some bytes.
abbrev pub IsPart : GgufTokenizer → List ℕ → Type 0
IsPart tokenizer part =
    (piece : List ℕ) × (part ≡ byte_encoded piece) × AreBytes piece × IsKnown tokenizer part

-- The bytes that the parts of a word spell.
abbrev pub decode_word : List (List ℕ) → List ℕ
decode_word [] = []
decode_word (part ∷ word) = decode_token part ++ decode_word word

-- Every text that a ranked pair is merged to is known.
abbrev pub KnowsMerges : GgufTokenizer → Type 0
KnowsMerges tokenizer =
    (first second : List ℕ)
    → IsRanked tokenizer.merge_ranks first second
    → IsKnown tokenizer (first ++ second)

module _ (tokenizer : GgufTokenizer) where
  append-IsPart :
      (first second : List ℕ)
      → IsPart tokenizer first
      → IsPart tokenizer second
      → IsKnown tokenizer (first ++ second)
      → IsPart tokenizer (first ++ second)
        × (decode_token (first ++ second) ≡ decode_token first ++ decode_token second)
  append-IsPart first second (xs, e, bs, _) (ys, f, cs, _) known =
      let bytes = All-append (λ byte. byte < 256) xs ys bs cs in
      let spelled : first ++ second ≡ byte_encoded (xs ++ ys) =
        rw (e, f) (sym (byte_encoded-append xs ys)) in
      let whole = ap decode_token spelled ∙ decode_token-byte_encoded (xs ++ ys) bytes in
      let left = ap decode_token e ∙ decode_token-byte_encoded xs bs in
      let right = ap decode_token f ∙ decode_token-byte_encoded ys cs in
      ((xs ++ ys, spelled, bytes, known), whole ∙ sym (λ i. left i ++ right i))

  module _ (merges : KnowsMerges tokenizer) where
    merge_at-IsPart :
        (i : ℕ) (word : List (List ℕ))
        → RankedAt tokenizer.merge_ranks i word
        → All (IsPart tokenizer) word
        → All (IsPart tokenizer) (merge_at i word)
          × (decode_word (merge_at i word) ≡ decode_word word)
    unfolding merge_at
    merge_at-IsPart i [] ranked parts = absurd ranked
    merge_at-IsPart zero (first ∷ []) ranked parts = absurd ranked
    merge_at-IsPart zero (first ∷ second ∷ word) ranked (p, (q, parts)) =
        let (merged, spells) = append-IsPart first second p q (merges first second ranked) in
        (
          (merged, parts),
          ap (λ t. t ++ decode_word word) spells
              ∙ append_assoc (decode_token first) (decode_token second) (decode_word word),
        )
    merge_at-IsPart (suc i) (first ∷ word) ranked (p, parts) =
        let (rest, spells) = merge_at-IsPart i word ranked parts in
        ((p, rest), ap (λ t. decode_token first ++ t) spells)

    bpe_loop-IsPart :
        (fuel : ℕ) (word : List (List ℕ))
        → All (IsPart tokenizer) word
        → All (IsPart tokenizer) (bpe_loop fuel tokenizer.merge_ranks word)
          × (decode_word (bpe_loop fuel tokenizer.merge_ranks word) ≡ decode_word word)
    unfolding bpe_loop
    bpe_loop-IsPart zero word parts = (parts, refl)
    bpe_loop-IsPart (suc fuel) word parts =
        elim (Option-cases (best_pair tokenizer.merge_ranks word)) [
          | inl ended ↦ rw (ended, bpe_loop) (parts, refl)
          | inr (i, best) ↦
              let ranked = best_pair-RankedAt tokenizer.merge_ranks word {i = i} best in
              let (merged, same) = merge_at-IsPart i word ranked parts in
              let (ends, spells) = bpe_loop-IsPart fuel (merge_at i word) merged in
              rw (best, bpe_loop) (ends, spells ∙ same)
        ]

    module _ (symbols : (byte : ℕ) → byte < 256 → IsKnown tokenizer (byte_encoder byte)) where
      symbols-IsPart :
          (text : List ℕ)
          → AreBytes text
          → All (IsPart tokenizer) (map byte_encoder text)
            × (decode_word (map byte_encoder text) ≡ text)
      symbols-IsPart [] all = (tt, refl)
      symbols-IsPart (byte ∷ text) (less, all) =
          let spelled : byte_encoder byte ≡ byte_encoded (byte ∷ []) =
            unfold byte_encoded in sym (append-nil (byte_encoder byte)) in
          let alone = ap decode_token spelled ∙ decode_token-byte_encoded (byte ∷ []) (less, tt) in
          let (parts, spells) = symbols-IsPart text all in
          (((byte ∷ [], spelled, (less, tt), symbols byte less), parts), λ i. alone i ++ spells i)

      -- The parts of a word that spells a text are known, and spell the text.
      pub bpe_parts-IsPart :
          (text : List ℕ)
          → AreBytes text
          → All (IsPart tokenizer) (bpe_parts tokenizer.merge_ranks (byte_encoded text))
            × (decode_word (bpe_parts tokenizer.merge_ranks (byte_encoded text)) ≡ text)
      unfolding bpe_parts
      bpe_parts-IsPart text all =
          let (parts, spells) = symbols-IsPart text all in
          let word = utf8_codepoint_strings-byte_encoded text all in
          let (ends, same) =
            bpe_loop-IsPart (length (map byte_encoder text)) (map byte_encoder text) parts in
          rw word (ends, same ∙ spells)
