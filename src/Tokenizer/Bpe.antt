-- ===== src/Tokenizer/Bpe.antt =====
-- `bpe_encode_word`: the pair of the lowest rank is merged until no pair has a rank.
use kraken_infer.Base.{
  ℕ, zero, suc, ◌+◌, ◌-◌, ◌^◌, Bool, false, List, [], ◌∷◌, ◌++◌, Option, none, some, ℤ, ltb,
  if◌then◌else◌, length,
}
use kraken_infer.Gguf.File.{find_entry}
use kraken_infer.Tokenizer.Utf8.{utf8_codepoint_strings}
use kraken_infer.Tokenizer.Vocabulary.{GgufTokenizer, pair_key}

abbrev pub Ranks : Type 0
Ranks = List (List ℕ × ℕ)

abbrev pub int_max : ℕ
int_max = 2 ^ 31 - 1

-- `it != end && it->second < best_rank`.
abbrev pub is_better : Option ℕ → ℕ → Bool
is_better none best_rank = false
is_better (some rank) best_rank = ltb rank best_rank

abbrev pub rank_or : Option ℕ → ℕ → ℕ
rank_or none best_rank = best_rank
rank_or (some rank) best_rank = rank

-- The loop over the pairs from index `i` on; `none` is the largest index of the source.
unfoldable pub best_from : Ranks → ℕ → ℕ → Option ℕ → List (List ℕ) → Option ℕ
unfolding find_entry pair_key
best_from ranks i best_rank best_index [] = best_index
best_from ranks i best_rank best_index (first ∷ []) = best_index
best_from ranks i best_rank best_index (first ∷ second ∷ word) =
    let it = find_entry (pair_key first second) ranks in
    let better = is_better it best_rank in
    best_from ranks (i + 1) (if better then rank_or it best_rank else best_rank)
      (if better then some i else best_index) (second ∷ word)

unfoldable pub best_pair : Ranks → List (List ℕ) → Option ℕ
unfolding best_from
best_pair ranks word = best_from ranks 0 int_max none word

-- The word with the pair at an index merged.
unfoldable pub merge_at : ℕ → List (List ℕ) → List (List ℕ)
merge_at i [] = []
merge_at zero (first ∷ []) = first ∷ []
merge_at zero (first ∷ second ∷ word) = (first ++ second) ∷ word
merge_at (suc i) (first ∷ word) = first ∷ merge_at i word

-- The `while` loop. A word of one part or none has no pair. Each round that goes on shortens the word.
unfoldable pub bpe_loop : ℕ → Ranks → List (List ℕ) → List (List ℕ)
unfolding best_pair merge_at
bpe_loop zero ranks word = word
bpe_loop (suc fuel) ranks word = elim (best_pair ranks word) [
  | none ↦ word
  | some best_index ↦ bpe_loop fuel ranks (merge_at best_index word)
]

unfoldable pub bpe_parts : Ranks → List ℕ → List (List ℕ)
unfolding bpe_loop utf8_codepoint_strings
bpe_parts ranks encoded_word =
    let word = utf8_codepoint_strings encoded_word in bpe_loop (length word) ranks word

-- The bytes of a token that the vocabulary does not have; those it does not have either are left out.
unfoldable pub byte_ids : List (List ℕ × ℤ) → List ℕ → List ℤ
unfolding find_entry
byte_ids ids [] = []
byte_ids ids (ch ∷ token) = elim (find_entry (ch ∷ []) ids) [
  | none ↦ byte_ids ids token
  | some id ↦ id ∷ byte_ids ids token
]

unfoldable pub part_ids : List (List ℕ × ℤ) → List ℕ → List ℤ
unfolding find_entry byte_ids
part_ids ids token = elim (find_entry token ids) [ none ↦ byte_ids ids token | some id ↦ id ∷ [] ]

unfoldable pub parts_ids : List (List ℕ × ℤ) → List (List ℕ) → List ℤ
unfolding part_ids
parts_ids ids [] = []
parts_ids ids (token ∷ word) = part_ids ids token ++ parts_ids ids word

unfoldable pub bpe_encode_word : GgufTokenizer → List ℕ → List ℤ
unfolding bpe_parts parts_ids
bpe_encode_word tokenizer encoded_word =
    parts_ids tokenizer.token_to_id (bpe_parts tokenizer.merge_ranks encoded_word)
