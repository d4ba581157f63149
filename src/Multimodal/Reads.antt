-- ===== src/Multimodal/Reads.antt =====
-- What a planned prompt reads like, and which images stand in it.
use kraken_infer.Base.{
  wrap, ℕ, zero, suc, ◌+◌, ◌≡◌, refl, sym, ap, ◌∙◌, List, [], ◌∷◌, ◌++◌, append-nil, append_assoc,
  arith,
}
use mathlib.Core.Path.{subst}
use kraken_infer.Multimodal.Embedding.{ImagePlan}
use kraken_infer.Multimodal.Prompt.{
  ChunkKind, text_chunk, image_chunk, PromptChunk, PromptPlan, append_text_chunk, new_text_chunk,
  add_multimodal_text_chunk, join_text, add_image_chunk,
}

-- The text of the chunks, one after the other.
unfoldable pub prompt_text : List PromptChunk → List ℕ
prompt_text [] = []
prompt_text (chunk ∷ chunks) = chunk.chunk_text ++ prompt_text chunks

abbrev pub index_of : ChunkKind → ℕ → List ℕ
index_of text_chunk index = []
index_of image_chunk index = index ∷ []

-- The numbers of the image chunks, in the order of the chunks.
unfoldable pub image_indexes : List PromptChunk → List ℕ
image_indexes [] = []
image_indexes (chunk ∷ chunks) = index_of chunk.kind chunk.image_index ++ image_indexes chunks

abbrev pub tokens_of : ChunkKind → ImagePlan → ℕ
tokens_of text_chunk plan = 0
tokens_of image_chunk plan = plan.image_tokens

unfoldable pub chunks_tokens : List PromptChunk → ℕ
chunks_tokens [] = 0
chunks_tokens (chunk ∷ chunks) = tokens_of chunk.kind chunk.image_plan + chunks_tokens chunks

-- The numbers below `n`, upwards.
unfoldable pub numbers_below : ℕ → List ℕ
numbers_below zero = []
numbers_below (suc n) = numbers_below n ++ n ∷ []

-- The plan reads like the text, and its images are numbered from 0 without a gap.
pub record Reads (text_so_far : List ℕ) (images : ℕ) (plan : PromptPlan) : Type 0 where
  pub read : prompt_text plan.chunks ≡ text_so_far
  pub counted : plan.image_index ≡ images
  pub numbered : image_indexes plan.chunks ≡ numbers_below images
  pub tokens : plan.image_tokens ≡ wrap (chunks_tokens plan.chunks)

pub Reads-same :
    {t u : List ℕ} {n k : ℕ} {plan : PromptPlan} → t ≡ u → n ≡ k → Reads t n plan → Reads u k plan
Reads-same {u} {n} {plan} e f r = subst (λ i. Reads u i plan) f (subst (λ t. Reads t n plan) e r)

prompt_text-append :
    (chunks more : List PromptChunk)
    → prompt_text (chunks ++ more) ≡ prompt_text chunks ++ prompt_text more
unfolding prompt_text
prompt_text-append [] more = refl
prompt_text-append (chunk ∷ chunks) more =
    ap (λ t. chunk.chunk_text ++ t) (prompt_text-append chunks more)
    ∙ sym (append_assoc chunk.chunk_text (prompt_text chunks) (prompt_text more))

image_indexes-append :
    (chunks more : List PromptChunk)
    → image_indexes (chunks ++ more) ≡ image_indexes chunks ++ image_indexes more
unfolding image_indexes
image_indexes-append [] more = refl
image_indexes-append (chunk ∷ chunks) more =
    let here = index_of chunk.kind chunk.image_index in
    ap (λ t. here ++ t) (image_indexes-append chunks more)
    ∙ sym (append_assoc here (image_indexes chunks) (image_indexes more))

chunks_tokens-append :
    (chunks more : List PromptChunk)
    → chunks_tokens (chunks ++ more) ≡ chunks_tokens chunks + chunks_tokens more
unfolding chunks_tokens
chunks_tokens-append [] more = omega arith
chunks_tokens-append (chunk ∷ chunks) more = omega (arith, chunks_tokens-append chunks more)

module _ (added : List ℕ) (message_index part_index : ℕ) where
  abbrev piece : PromptChunk
  piece = new_text_chunk added message_index part_index

  prompt_text-join_text :
      (kind : ChunkKind) (last : PromptChunk)
      → prompt_text (join_text kind last piece) ≡ prompt_text (last ∷ []) ++ added
  unfolding prompt_text
  prompt_text-join_text text_chunk last =
      append-nil (last.chunk_text ++ added)
      ∙ ap (λ t. t ++ added) (sym (append-nil last.chunk_text))
  prompt_text-join_text image_chunk last =
      ap (λ t. last.chunk_text ++ t) (append-nil added)
      ∙ ap (λ t. t ++ added) (sym (append-nil last.chunk_text))

  prompt_text-append_text_chunk :
      (chunks : List PromptChunk)
      → prompt_text (append_text_chunk chunks piece) ≡ prompt_text chunks ++ added
  unfolding prompt_text append_text_chunk
  prompt_text-append_text_chunk [] = append-nil added
  prompt_text-append_text_chunk (last ∷ []) = prompt_text-join_text last.kind last
  prompt_text-append_text_chunk (first ∷ second ∷ chunks) =
      ap (λ t. first.chunk_text ++ t) (prompt_text-append_text_chunk (second ∷ chunks))
      ∙ sym (append_assoc first.chunk_text (prompt_text (second ∷ chunks)) added)

  image_indexes-join_text :
      (kind : ChunkKind) (last : PromptChunk)
      → image_indexes (join_text kind last piece) ≡ image_indexes (last ∷ [])
  unfolding image_indexes
  image_indexes-join_text text_chunk last = refl
  image_indexes-join_text image_chunk last = refl

  image_indexes-append_text_chunk :
      (chunks : List PromptChunk)
      → image_indexes (append_text_chunk chunks piece) ≡ image_indexes chunks
  unfolding image_indexes append_text_chunk
  image_indexes-append_text_chunk [] = refl
  image_indexes-append_text_chunk (last ∷ []) = image_indexes-join_text last.kind last
  image_indexes-append_text_chunk (first ∷ second ∷ chunks) =
      ap (λ t. index_of first.kind first.image_index ++ t)
        (image_indexes-append_text_chunk (second ∷ chunks))

  chunks_tokens-join_text :
      (kind : ChunkKind) (last : PromptChunk)
      → chunks_tokens (join_text kind last piece) ≡ chunks_tokens (last ∷ [])
  unfolding chunks_tokens
  chunks_tokens-join_text text_chunk last = refl
  chunks_tokens-join_text image_chunk last = refl

  chunks_tokens-append_text_chunk :
      (chunks : List PromptChunk)
      → chunks_tokens (append_text_chunk chunks piece) ≡ chunks_tokens chunks
  unfolding chunks_tokens append_text_chunk
  chunks_tokens-append_text_chunk [] = refl
  chunks_tokens-append_text_chunk (last ∷ []) = chunks_tokens-join_text last.kind last
  chunks_tokens-append_text_chunk (first ∷ second ∷ chunks) =
      ap (λ n. tokens_of first.kind first.image_plan + n)
        (chunks_tokens-append_text_chunk (second ∷ chunks))

pub add_multimodal_text_chunk-Reads :
    {so_far : List ℕ} {images : ℕ} {plan : PromptPlan} (added : List ℕ)
    (message_index part_index : ℕ)
    → Reads so_far images plan
    → Reads (so_far ++ added) images (add_multimodal_text_chunk plan added message_index part_index)
unfolding add_multimodal_text_chunk
add_multimodal_text_chunk-Reads {so_far} {plan} [] m p r = record {
  read = r.read ∙ sym (append-nil so_far);
  counted = r.counted;
  numbered = r.numbered;
  tokens = r.tokens;
}
add_multimodal_text_chunk-Reads {plan} (c ∷ added) m p r = record {
  read =
      prompt_text-append_text_chunk (c ∷ added) m p plan.chunks ∙ ap (λ t. t ++ c ∷ added) r.read;
  counted = r.counted;
  numbered = image_indexes-append_text_chunk (c ∷ added) m p plan.chunks ∙ r.numbered;
  tokens = r.tokens ∙ ap wrap (sym (chunks_tokens-append_text_chunk (c ∷ added) m p plan.chunks));
}

wrap-add : (n m : ℕ) → wrap (wrap n + m) ≡ wrap (n + m)
wrap-add n m = omega arith

pub add_image_chunk-Reads :
    {so_far : List ℕ} {images : ℕ} {plan : PromptPlan} (fingerprint message_index part_index : ℕ)
    (image_plan : ImagePlan)
    → Reads so_far images plan
    → Reads so_far
        (suc images)
        (add_image_chunk plan fingerprint message_index part_index image_plan)
unfolding add_image_chunk prompt_text image_indexes chunks_tokens numbers_below
add_image_chunk-Reads {so_far} {images} {plan} f m p image_plan r = record {
  read = prompt_text-append plan.chunks _ ∙ append-nil _ ∙ r.read;
  counted = ap suc r.counted;
  numbered =
      image_indexes-append plan.chunks _
      ∙ ap (λ l. l ++ plan.image_index ∷ []) r.numbered
      ∙ ap (λ i. numbers_below images ++ i ∷ []) r.counted;
  tokens =
      let alone : image_plan.image_tokens + 0 ≡ image_plan.image_tokens = omega arith in
      ap (λ n. wrap (n + image_plan.image_tokens)) r.tokens
      ∙ wrap-add (chunks_tokens plan.chunks) image_plan.image_tokens
      ∙ ap wrap (
          sym (chunks_tokens-append plan.chunks _ ∙ ap (λ n. chunks_tokens plan.chunks + n) alone));
}
