-- ===== src/Tokenizer/Special.antt =====
-- `partition_special_tokens`: special tokens are cut out of the text, the longest one at each place.
use kraken_infer.Base.{
  ℕ, zero, suc, ◌+◌, ◌-◌, Bool, true, false, not, ◌&&◌, ◌||◌, List, [], ◌∷◌, ◌++◌, ℤ, pos, negsuc,
  ltb, leb, ◌==◌, if◌then◌else◌, length, get_or, is_empty, starts_with,
}
use kraken_infer.Tokenizer.Vocabulary.{
  GgufTokenizer, user_defined_type, control_type, unknown_type, to_token_type,
}

pub record Fragment : Type 0 where
  pub token : Bool
  pub token_id : ℤ
  pub offset : ℕ
  pub size : ℕ

unfoldable pub token_type_matches_special : ℕ → Bool → Bool
token_type_matches_special type parse_special =
    if type == user_defined_type
    then true
    else if not parse_special
    then false
    else type == control_type || type == unknown_type

-- The loop over the tokens from number `i` on, with their types.
unfoldable pub specials_from : ℕ → Bool → List (List ℕ) → List ℤ → List ℕ
unfolding token_type_matches_special
specials_from i parse_special [] types = []
specials_from i parse_special (token ∷ tokens) types =
    let type = to_token_type (get_or types i (negsuc 0)) in
    let special = token_type_matches_special type parse_special in
    let rest = specials_from (i + 1) parse_special tokens types in
    if not (is_empty token) && special then i ∷ rest else rest

-- The order of `std::sort`: longer texts first, then lower ids.
unfoldable pub longer : List (List ℕ) → ℕ → ℕ → Bool
longer tokens left right =
    let left_size = length (get_or tokens left []) in
    let right_size = length (get_or tokens right []) in
    if left_size == right_size then ltb left right else ltb right_size left_size

unfoldable pub insert_id : List (List ℕ) → ℕ → List ℕ → List ℕ
unfolding longer
insert_id tokens id [] = id ∷ []
insert_id tokens id (other ∷ ids) =
    if longer tokens id other then id ∷ other ∷ ids else other ∷ insert_id tokens id ids

unfoldable pub sort_ids : List (List ℕ) → List ℕ → List ℕ
unfolding insert_id
sort_ids tokens [] = []
sort_ids tokens (id ∷ ids) = insert_id tokens id (sort_ids tokens ids)

unfoldable pub special_token_ids : GgufTokenizer → Bool → List ℕ
unfolding specials_from sort_ids
special_token_ids tokenizer parse_special =
    sort_ids tokenizer.tokens (specials_from 0 parse_special tokenizer.tokens tokenizer.token_types)

-- The special token that is found at a place: its id and its length, 0 where there is none.
abbrev pub SpecialMatch : Type 0
SpecialMatch = ℤ × ℕ

-- The loop over the special tokens, at a place where `rest` is left of the text.
unfoldable pub match_special : List (List ℕ) → List ℕ → List ℕ → SpecialMatch → SpecialMatch
unfolding starts_with
match_special tokens rest [] found = found
match_special tokens rest (id ∷ ids) found =
    let token = get_or tokens id [] in
    let longer_match = not (leb (length token) found.1) && starts_with rest token in
    match_special tokens rest ids (if longer_match then (pos id, length token) else found)

abbrev pub raw_fragment : ℕ → ℕ → List Fragment
raw_fragment raw_start position =
    if ltb raw_start position
    then record {
      token = false;
      token_id = negsuc 0;
      offset = raw_start;
      size = position - raw_start;
    }
      ∷ []
    else []

abbrev pub token_fragment : ℤ → ℕ → ℕ → Fragment
token_fragment id position count = record {
  token = true;
  token_id = id;
  offset = position;
  size = count;
}

-- The loop, over what is left of the text at `position`. A round takes one character or one token; `skip`
-- counts the characters of the token that are still to be passed.
unfoldable pub partition_from : List (List ℕ) → List ℕ → ℕ → ℕ → ℕ → List ℕ → List Fragment
unfolding match_special
partition_from tokens specials skip raw_start position [] = raw_fragment raw_start position
partition_from tokens specials (suc skip) raw_start position (ch ∷ rest) =
    partition_from tokens specials skip raw_start (position + 1) rest
partition_from tokens specials zero raw_start position (ch ∷ rest) =
    let found = match_special tokens (ch ∷ rest) specials (negsuc 0, 0) in
    elim found.0 [
      | negsuc n ↦ partition_from tokens specials 0 raw_start (position + 1) rest
      | pos id ↦
          raw_fragment raw_start position
          ++ token_fragment (pos id) position found.1
            ∷ partition_from tokens specials (found.1 - 1) (position + found.1) (position + 1) rest
    ]

unfoldable pub partition_special_tokens : GgufTokenizer → List ℕ → Bool → List Fragment
unfolding special_token_ids partition_from
partition_special_tokens tokenizer text parse_special =
    partition_from tokenizer.tokens (special_token_ids tokenizer parse_special) 0 0 0 text
