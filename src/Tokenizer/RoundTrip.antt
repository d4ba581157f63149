-- ===== src/Tokenizer/RoundTrip.antt =====
-- What a loaded tokenizer encodes is decoded to the same text.
use kraken_infer.Base.{
  ℕ, zero, suc, ◌+◌, ◌<◌, ◌≡◌, refl, ap, ◌∙◌, inl, inr, Bool, false, not, List, [], ◌∷◌, ◌++◌,
  Option, none, some, ℤ, pos, ltb, ◌==◌, length, drop, drop-drop, get_or, string_eq, string_eq_refl,
  string_eq-eq, All, ok, guard, invalid_argument, >>=-eq-ok, ok-injective, Bool-cases, arith,
}
use mathlib.Core.Path.{subst}
use kraken_infer.Gguf.File.{GgufFile, find_entry, emplace}
use kraken_infer.Gguf.Get.{i64_max}
use kraken_infer.Tokenizer.Bytes.{byte_encoder}
use kraken_infer.Tokenizer.Vocabulary.{
  GgufTokenizer, bytes_of, get_string_array, types_of, merges_of, add_merges, add_tokens,
  load_gguf_tokenizer,
}
use kraken_infer.Tokenizer.Special.{special_token_ids, partition_special_tokens}
use kraken_infer.Tokenizer.Codec.{
  gpt2_model, qwen35_pre, fragments_ids, gguf_encode_text, gguf_decode_token_text,
}
use kraken_infer.Tokenizer.Decoding.{AreBytes}
use kraken_infer.Tokenizer.Merges.{IsKnown, IsRanked}
use kraken_infer.Tokenizer.Partition.{IsPlain, partition_from-Spells}

-- An entry of `token_to_id` points to its token.
abbrev IsEntry : List (List ℕ) → List ℕ × ℤ → Type 0
IsEntry tokens entry =
    (id : ℕ) × (entry.1 ≡ pos id) × (id < length tokens) × (get_or tokens id [] ≡ entry.0)

get_or-drop :
    (id : ℕ) (token : List ℕ) (rest tokens : List (List ℕ))
    → token ∷ rest ≡ drop id tokens
    → (id < length tokens) × (get_or tokens id [] ≡ token)
get_or-drop zero token rest [] e = absurd (cc)
get_or-drop zero token rest (first ∷ tokens) e = (omega arith, cc)
get_or-drop (suc id) token rest [] e = absurd (cc)
get_or-drop (suc id) token rest (first ∷ tokens) e =
    let (less, same) = get_or-drop id token rest tokens e in (omega (arith, less), same)

emplace-All :
    {A : Type 0} (P : List ℕ × A → Type 0) (key : List ℕ) (value : A) (entries : List (List ℕ × A))
    → P (key, value)
    → All P entries
    → All P (emplace key value entries)
unfolding emplace
emplace-All {A} P key value entries p all = go (find_entry key entries)
  where
    go :
        (found : Option A) → All P (elim found [ none ↦ (key, value) ∷ entries | some _ ↦ entries ])
    go none = (p, all)
    go (some _) = all

add_tokens-All :
    (tokens : List (List ℕ)) (id : ℕ) (rest : List (List ℕ)) (ids : List (List ℕ × ℤ))
    {result : List (List ℕ × ℤ)}
    → rest ≡ drop id tokens
    → All (IsEntry tokens) ids
    → add_tokens id rest ids ≡ ok result
    → All (IsEntry tokens) result
unfolding add_tokens
add_tokens-All tokens id [] ids left all e = subst (All (IsEntry tokens)) (ok-injective e) all
add_tokens-All tokens id (token ∷ rest) ids {result} left all e =
    let (u, small, more) = >>=-eq-ok (guard (not (ltb i64_max id)) invalid_argument) _ e in
    let (less, same) = get_or-drop id token rest tokens left in
    add_tokens-All tokens (id + 1) rest (emplace token (pos id) ids) {result = result}
      (ap (drop 1) left ∙ drop-drop 1 id tokens)
      (emplace-All (IsEntry tokens) token (pos id) ids (id, refl, less, same) all) more

find_entry-All :
    {A : Type 0} (P : List ℕ × A → Type 0) (key : List ℕ) (entries : List (List ℕ × A)) {value : A}
    → All P entries
    → find_entry key entries ≡ some value
    → P (key, value)
unfolding find_entry
find_entry-All P key [] all e = absurd (cc)
find_entry-All P key ((k, v) ∷ entries) {value} (p, all) e = elim (Bool-cases (string_eq k key)) [
  | inl same ↦
      let here : v ≡ value = let f = rw same at e in cc in rw (← string_eq-eq k key same, ← here) p
  | inr other ↦ find_entry-All P key entries {value = value} all (rw other at e)
]

-- The tokenizer's table has an id for a text.
abbrev pub HasToken : GgufTokenizer → List ℕ → Type 0
HasToken tokenizer token = (id : ℤ) × (find_entry token tokenizer.token_to_id ≡ some id)

load-IsEntry :
    {Real : Type 0} (gguf : GgufFile Real) {tokenizer : GgufTokenizer}
    → load_gguf_tokenizer gguf ≡ ok tokenizer
    → All (IsEntry tokenizer.tokens) tokenizer.token_to_id
unfolding load_gguf_tokenizer
load-IsEntry gguf {tokenizer} e =
    let (tokens, listed, e1) =
      >>=-eq-ok (get_string_array gguf (bytes_of "tokenizer.ggml.tokens")) _ e in
    let (u, sized, e2) =
      >>=-eq-ok (guard (length (types_of gguf (length tokens)) == length tokens) invalid_argument) _
        e1 in
    let (ranks, merged, e3) = >>=-eq-ok (add_merges 0 (merges_of gguf) []) _ e2 in
    let (ids, added, e4) = >>=-eq-ok (add_tokens 0 tokens []) _ e3 in
    let loaded = ok-injective e4 in
    rw (← loaded) (add_tokens-All tokens 0 tokens [] {result = ids} refl tt added)

-- In a loaded tokenizer, a text with an id is the token of it.
load-IsKnown :
    {Real : Type 0} (gguf : GgufFile Real) {tokenizer : GgufTokenizer} (token : List ℕ)
    → load_gguf_tokenizer gguf ≡ ok tokenizer
    → HasToken tokenizer token
    → IsKnown tokenizer token
load-IsKnown gguf {tokenizer} token e (id, found) =
    let (n, same, less, here) =
      find_entry-All (IsEntry tokenizer.tokens) token tokenizer.token_to_id {value = id}
        (load-IsEntry gguf {tokenizer = tokenizer} e) found in
    (n, found ∙ ap some same, less, here)

encode_text-ids :
    (tokenizer : GgufTokenizer) (text : List ℕ) (parse_special : Bool)
    → tokenizer.model ≡ gpt2_model
    → tokenizer.pre ≡ qwen35_pre
    → gguf_encode_text tokenizer text false parse_special
      ≡ ok (fragments_ids tokenizer text (partition_special_tokens tokenizer text parse_special))
unfolding gguf_encode_text
encode_text-ids tokenizer text parse_special model pre =
    let m = ap (λ s. string_eq s gpt2_model) model ∙ string_eq_refl gpt2_model in
    let p = ap (λ s. string_eq s qwen35_pre) pre ∙ string_eq_refl qwen35_pre in simp (m, p) refl

-- What a loaded GPT-2 tokenizer of Qwen3.5 encodes, without tokens at the ends, is decoded to the same
-- text, control tokens included, for every text of bytes. The conditions: each byte's symbol and each
-- text that a ranked pair is merged to has an id, and each special token is decoded to its own text.
pub decode-encode :
    {Real : Type 0} (gguf : GgufFile Real) (text : List ℕ) (parse_special : Bool)
    {tokenizer : GgufTokenizer}
    → load_gguf_tokenizer gguf ≡ ok tokenizer
    → tokenizer.model ≡ gpt2_model
    → tokenizer.pre ≡ qwen35_pre
    → AreBytes text
    → ((byte : ℕ) → byte < 256 → HasToken tokenizer (byte_encoder byte))
    → ((first second : List ℕ)
        → IsRanked tokenizer.merge_ranks first second
        → HasToken tokenizer (first ++ second))
    → All (IsPlain tokenizer) (special_token_ids tokenizer parse_special)
    → (ids : List ℤ) × (gguf_encode_text tokenizer text false parse_special ≡ ok ids)
      × (gguf_decode_token_text tokenizer ids false ≡ ok text)
unfolding partition_special_tokens
decode-encode gguf text parse_special {tokenizer} loaded model pre bytes symbols merges plain =
    let known = λ (token : List ℕ) (has : HasToken tokenizer token).
      load-IsKnown gguf {tokenizer = tokenizer} token loaded has in
    (
      fragments_ids tokenizer text (partition_special_tokens tokenizer text parse_special),
      encode_text-ids tokenizer text parse_special model pre,
      partition_from-Spells tokenizer
          (λ first second ranked. known (first ++ second) (merges first second ranked))
          (λ byte less. known (byte_encoder byte) (symbols byte less)) text bytes
          (special_token_ids tokenizer parse_special) plain 0 0 0 text refl (omega arith)
          (omega arith) (inl (omega arith, refl)),
    )
