-- ===== src/Multimodal/Decodes.antt =====
-- The tokens of a prompt with images are decoded to the text of its plan.
use kraken_infer.Base.{
  ℕ, ◌+◌, max, ◌<◌, ◌≡◌, refl, sym, ap, ◌∙◌, true, false, List, [], ◌∷◌, ◌++◌, ℤ, All, length, wrap,
  length-append, ok, invalid_argument, guard, >>=-eq-ok, ok-injective, append-nil, append_assoc,
  arith,
}
use mathlib.Core.Path.{subst}
use kraken_infer.Gguf.File.{GgufFile}
use kraken_infer.Tokenizer.Bytes.{byte_encoder}
use kraken_infer.Tokenizer.Vocabulary.{GgufTokenizer, load_gguf_tokenizer, valid_token_id, token_at}
use kraken_infer.Tokenizer.Special.{special_token_ids}
use kraken_infer.Tokenizer.Codec.{gpt2_model, qwen35_pre, decode_token, gguf_decode_token_text}
use kraken_infer.Tokenizer.Decoding.{AreBytes}
use kraken_infer.Tokenizer.Merges.{IsRanked}
use kraken_infer.Tokenizer.Partition.{IsPlain}
use kraken_infer.Tokenizer.RoundTrip.{HasToken, decode-encode}
use kraken_infer.Multimodal.Prompt.{ChunkKind, text_chunk, image_chunk, PromptChunk, PromptPlan}
use kraken_infer.Multimodal.Reads.{prompt_text, tokens_of, chunks_tokens}
use kraken_infer.Multimodal.Tokens.{
  TokenChunk, TokenPlan, empty_tokens, token_chunk, add_text_tokens, add_image_tokens,
  tokenize_chunk, tokenize_chunks, tokenize_prompt_plan,
}

decode-append :
    (tokenizer : GgufTokenizer) (xs ys : List ℤ) {s t : List ℕ}
    → gguf_decode_token_text tokenizer xs false ≡ ok s
    → gguf_decode_token_text tokenizer ys false ≡ ok t
    → gguf_decode_token_text tokenizer (xs ++ ys) false ≡ ok (s ++ t)
unfolding gguf_decode_token_text
decode-append tokenizer [] ys {s} {t} e f = f ∙ ap (λ u. ok (u ++ t)) (ok-injective e)
decode-append tokenizer (id ∷ xs) ys {s} {t} e f =
    let (u, valid, e) = >>=-eq-ok (guard (valid_token_id tokenizer id) invalid_argument) _ e in
    let (rest, decoded, e) = >>=-eq-ok (gguf_decode_token_text tokenizer xs false) _ e in
    rw (valid, decode-append tokenizer xs ys {s = rest} {t = t} decoded f)
      (ap ok (sym (append_assoc (decode_token (token_at tokenizer id)) rest t))
        ∙ ap (λ u. ok (u ++ t)) (ok-injective e))

-- The ids of the chunks, one chunk after the other.
unfoldable pub chunks_ids : List TokenChunk → List ℤ
chunks_ids [] = []
chunks_ids (chunk ∷ chunks) = chunk.ids ++ chunks_ids chunks

chunks_ids-push :
    (chunks : List TokenChunk) (chunk : TokenChunk)
    → chunks_ids (chunks ++ chunk ∷ []) ≡ chunks_ids chunks ++ chunk.ids
unfolding chunks_ids
chunks_ids-push [] chunk = append-nil chunk.ids
chunks_ids-push (first ∷ chunks) chunk =
    ap (λ ids. first.ids ++ ids) (chunks_ids-push chunks chunk)
    ∙ sym (append_assoc first.ids (chunks_ids chunks) chunk.ids)

-- The ids so far are decoded to a text, and the counts are those of the ids and of the images.
pub record Decodes (tokenizer : GgufTokenizer) (text : List ℕ) (images : ℕ) (plan : TokenPlan)
    : Type 0 where
  pub decoded : gguf_decode_token_text tokenizer (chunks_ids plan.chunks) false ≡ ok text
  pub text_counted : plan.text_tokens ≡ wrap (length (chunks_ids plan.chunks))
  pub image_counted : plan.image_tokens ≡ wrap images
  pub totalled : plan.total_tokens ≡ wrap (plan.text_tokens + plan.image_tokens)

Decodes-same :
    {tokenizer : GgufTokenizer} {t u : List ℕ} {n k : ℕ} {plan : TokenPlan}
    → t ≡ u
    → n ≡ k
    → Decodes tokenizer t n plan
    → Decodes tokenizer u k plan
Decodes-same {tokenizer} {u} {n} {plan} e f d =
    subst (λ i. Decodes tokenizer u i plan) f (subst (λ t. Decodes tokenizer t n plan) e d)

-- An image chunk has no text of its own.
abbrev pub IsBlank : ChunkKind → List ℕ → Type 0
IsBlank text_chunk text = Unit
IsBlank image_chunk text = text ≡ []

abbrev pub IsSpelled : PromptChunk → Type 0
IsSpelled chunk = AreBytes chunk.chunk_text × IsBlank chunk.kind chunk.chunk_text

add_text_tokens-Decodes :
    (tokenizer : GgufTokenizer) (chunk : PromptChunk) (ids : List ℤ) {so_far text : List ℕ}
    {images : ℕ} {plan : TokenPlan}
    → gguf_decode_token_text tokenizer ids false ≡ ok text
    → Decodes tokenizer so_far images plan
    → Decodes tokenizer (so_far ++ text) images (add_text_tokens chunk ids plan)
add_text_tokens-Decodes tokenizer chunk ids {so_far} {text} {images} {plan} e d =
    let pushed = chunks_ids-push plan.chunks (token_chunk chunk ids (length ids) (length ids)) in
    let sum = length-append (chunks_ids plan.chunks) ids in
    let c = d.text_counted in
    let i = d.image_counted in
    let t = d.totalled in
    record {
      decoded = rw pushed (
          decode-append tokenizer (chunks_ids plan.chunks) ids {s = so_far} {t = text} d.decoded e);
      text_counted = rw (pushed, sum) (omega arith);
      image_counted = i;
      totalled = omega arith;
    }

add_image_tokens-Decodes :
    (tokenizer : GgufTokenizer) (chunk : PromptChunk) {so_far : List ℕ} {images : ℕ}
    {plan : TokenPlan}
    → Decodes tokenizer so_far images plan
    → Decodes tokenizer so_far
        (images + chunk.image_plan.image_tokens)
        (add_image_tokens chunk plan)
add_image_tokens-Decodes tokenizer chunk {so_far} {images} {plan} d =
    let p = chunk.image_plan in
    let pushed = token_chunk chunk [] p.image_tokens (max p.merge_grid_x p.merge_grid_y) in
    let same = chunks_ids-push plan.chunks pushed ∙ append-nil (chunks_ids plan.chunks) in
    let c = d.text_counted in
    let i = d.image_counted in
    let t = d.totalled in
    record {
      decoded = rw same d.decoded;
      text_counted = rw same c;
      image_counted = omega arith;
      totalled = omega arith;
    }

module _ {Real : Type 0} (gguf : GgufFile Real) (tokenizer : GgufTokenizer)
    (loaded : load_gguf_tokenizer gguf ≡ ok tokenizer) (model : tokenizer.model ≡ gpt2_model)
    (pre : tokenizer.pre ≡ qwen35_pre)
    (symbols : (byte : ℕ) → byte < 256 → HasToken tokenizer (byte_encoder byte))
    (merges : (first second : List ℕ)
      → IsRanked tokenizer.merge_ranks first second
      → HasToken tokenizer (first ++ second))
    (plain : All (IsPlain tokenizer) (special_token_ids tokenizer true)) where
  tokenize_chunk-Decodes :
      (kind : ChunkKind) (chunk : PromptChunk) {so_far : List ℕ} {images : ℕ} {plan : TokenPlan}
      → AreBytes chunk.chunk_text
      → IsBlank kind chunk.chunk_text
      → Decodes tokenizer so_far images plan
      → (next : TokenPlan) × (tokenize_chunk kind tokenizer chunk plan ≡ ok next)
        × Decodes tokenizer
            (so_far ++ chunk.chunk_text)
            (images + tokens_of kind chunk.image_plan)
            next
  tokenize_chunk-Decodes text_chunk chunk {so_far} {images} {plan} bytes blank d =
      let (ids, encoded, decoded) =
        decode-encode gguf chunk.chunk_text true {tokenizer = tokenizer} loaded model pre bytes
          symbols merges plain in
      let none_more : images ≡ images + 0 = omega arith in
      (
        add_text_tokens chunk ids plan,
        rw encoded refl,
        subst
            (λ n. Decodes tokenizer (so_far ++ chunk.chunk_text) n (add_text_tokens chunk ids plan))
            none_more (add_text_tokens-Decodes tokenizer chunk ids decoded d),
      )
  tokenize_chunk-Decodes image_chunk chunk {so_far} {images} {plan} bytes blank d = (
    add_image_tokens chunk plan,
    refl,
    subst
        (λ t.
          Decodes tokenizer t (images + chunk.image_plan.image_tokens)
            (add_image_tokens chunk plan))
        (sym (ap (λ t. so_far ++ t) blank ∙ append-nil so_far))
        (add_image_tokens-Decodes tokenizer chunk d),
  )

  tokenize_chunks-Decodes :
      (chunks : List PromptChunk) {so_far : List ℕ} {images : ℕ} {plan : TokenPlan}
      → All IsSpelled chunks
      → Decodes tokenizer so_far images plan
      → (result : TokenPlan) × (tokenize_chunks tokenizer chunks plan ≡ ok result)
        × Decodes tokenizer (so_far ++ prompt_text chunks) (images + chunks_tokens chunks) result
  unfolding tokenize_chunks prompt_text chunks_tokens
  tokenize_chunks-Decodes [] {so_far} {images} {plan} spelled d =
      (plan, refl, Decodes-same (sym (append-nil so_far)) (omega arith) d)
  tokenize_chunks-Decodes (chunk ∷ chunks) {so_far} {images} {plan} ((bytes, blank), spelled) d =
      let (next, made, e) = tokenize_chunk-Decodes chunk.kind chunk bytes blank d in
      let (result, rest, f) = tokenize_chunks-Decodes chunks spelled e in
      (
        result,
        rw made rest,
        Decodes-same (append_assoc so_far chunk.chunk_text (prompt_text chunks)) (omega arith) f,
      )

  -- A loaded GPT-2 tokenizer of Qwen3.5 turns every planned prompt of bytes into tokens. The ids of its
  -- text chunks, in the order of the prompt, are decoded to the text of the plan; `text_tokens`
  -- counts these ids, `image_tokens` the tokens of the images' plans, and `total_tokens` both, as
  -- words of 64 bits. The conditions: an image chunk has no text of its own, each byte's symbol
  -- and each text that a ranked pair is merged to has an id, and each special token is decoded to
  -- its own text.
  pub tokenize_prompt_plan-Decodes :
      (plan : PromptPlan)
      → All IsSpelled plan.chunks
      → (tokens : TokenPlan) × (tokenize_prompt_plan tokenizer plan ≡ ok tokens)
        × Decodes tokenizer (prompt_text plan.chunks) (chunks_tokens plan.chunks) tokens
  unfolding tokenize_prompt_plan chunks_ids gguf_decode_token_text
  tokenize_prompt_plan-Decodes plan spelled =
      let nothing : Decodes tokenizer [] 0 empty_tokens = record {
        decoded = refl;
        text_counted = refl;
        image_counted = refl;
        totalled = refl;
      } in
      let (tokens, made, d) = tokenize_chunks-Decodes plan.chunks spelled nothing in
      (tokens, made, Decodes-same refl (omega arith) d)
