-- ===== src/Tokenizer/Merged.antt =====
-- The merging of a word ends when no pair of it can be merged.
use kraken_infer.Base.{
  ℕ, zero, suc, ◌+◌, ◌≤◌, ◌<◌, ◌≡◌, ◌≢◌, inl, inr, false, List, [], ◌∷◌, none, some, length,
  Bool-cases, Option-cases, arith,
}
use kraken_infer.Gguf.File.{find_entry}
use kraken_infer.Tokenizer.Utf8.{utf8_codepoint_strings}
use kraken_infer.Tokenizer.Vocabulary.{pair_key}
use kraken_infer.Tokenizer.Bpe.{
  Ranks, int_max, is_better, rank_or, best_from, best_pair, merge_at, bpe_loop, bpe_parts,
}
use kraken_infer.Tokenizer.Merges.{RankedAt, best_pair-RankedAt}

-- No two neighbours have a rank below the largest `int`.
abbrev pub IsMerged : Ranks → List (List ℕ) → Type 0
IsMerged ranks [] = Unit
IsMerged ranks (first ∷ []) = Unit
IsMerged ranks (first ∷ second ∷ word) =
    (is_better (find_entry (pair_key first second) ranks) int_max ≡ false)
    × IsMerged ranks (second ∷ word)

best_from-some :
    (ranks : Ranks) (k best_rank i : ℕ) (word : List (List ℕ))
    → best_from ranks k best_rank (some i) word ≢ none
unfolding best_from
best_from-some ranks k best_rank i [] e = cc
best_from-some ranks k best_rank i (first ∷ []) e = cc
best_from-some ranks k best_rank i (first ∷ second ∷ word) e =
    let it = find_entry (pair_key first second) ranks in
    elim (Bool-cases (is_better it best_rank)) [
      | inl better ↦
          best_from-some ranks (k + 1) (rank_or it best_rank) k (second ∷ word) (rw better at e)
      | inr worse ↦ best_from-some ranks (k + 1) best_rank i (second ∷ word) (rw worse at e)
    ]

best_from-IsMerged :
    (ranks : Ranks) (k : ℕ) (word : List (List ℕ))
    → best_from ranks k int_max none word ≡ none
    → IsMerged ranks word
unfolding best_from
best_from-IsMerged ranks k [] e = tt
best_from-IsMerged ranks k (first ∷ []) e = tt
best_from-IsMerged ranks k (first ∷ second ∷ word) e =
    let it = find_entry (pair_key first second) ranks in
    elim (Bool-cases (is_better it int_max)) [
      | inl better ↦
          absurd
            (best_from-some ranks (k + 1) (rank_or it int_max) k (second ∷ word) (rw better at e))
      | inr worse ↦ (worse, best_from-IsMerged ranks (k + 1) (second ∷ word) (rw worse at e))
    ]

length-merge_at :
    (ranks : Ranks) (i : ℕ) (word : List (List ℕ))
    → RankedAt ranks i word
    → length (merge_at i word) < length word
unfolding merge_at
length-merge_at ranks i [] ranked = absurd ranked
length-merge_at ranks zero (first ∷ []) ranked = absurd ranked
length-merge_at ranks zero (first ∷ second ∷ word) ranked = omega arith
length-merge_at ranks (suc i) (first ∷ word) ranked =
    omega (arith, length-merge_at ranks i word ranked)

bpe_loop-IsMerged :
    (fuel : ℕ) (ranks : Ranks) (word : List (List ℕ))
    → length word ≤ fuel
    → IsMerged ranks (bpe_loop fuel ranks word)
unfolding bpe_loop
bpe_loop-IsMerged zero ranks [] enough = tt
bpe_loop-IsMerged zero ranks (part ∷ word) enough = absurd (omega arith)
bpe_loop-IsMerged (suc fuel) ranks word enough = elim (Option-cases (best_pair ranks word)) [
  | inl ended ↦ rw (ended, bpe_loop) (best_from-IsMerged ranks 0 word (unfold best_pair in ended))
  | inr (i, best) ↦
      let shorter = length-merge_at ranks i word (best_pair-RankedAt ranks word {i = i} best) in
      rw (best, bpe_loop) (bpe_loop-IsMerged fuel ranks (merge_at i word) (omega (arith, shorter)))
]

-- The merging of a word, whatever its bytes and the ranks are, ends with no two neighbours that have a
-- rank below the largest `int`: the number of rounds that the model takes is enough.
pub bpe_parts-IsMerged :
    (ranks : Ranks) (encoded_word : List ℕ) → IsMerged ranks (bpe_parts ranks encoded_word)
unfolding bpe_parts
bpe_parts-IsMerged ranks encoded_word =
    let word = utf8_codepoint_strings encoded_word in
    bpe_loop-IsMerged (length word) ranks word (omega arith)
