-- ===== src/Multimodal/Grid.antt =====
-- The grid of a planned image covers its resized sides exactly.
use kraken_infer.Base.{
  ℕ, ◌*◌, ◌/◌, ◌%◌, ◌<◌, ◌≡◌, refl, ap, ◌∙◌, not, ◌||◌, ltb, ◌==◌, ◌-◌, invalid_argument, ok,
  Ensures, Ensures-ok, Ensures-bind, Ensures-guard, Ensures_lem, arith,
}
use native.Mathlib.Nat.{mod-add-div'}
use kraken_infer.Multimodal.Resize.{
  Scaling, Dimensions, u32_mod, positive_u32_from_i64, checked_u64_mul, smart_resize,
}
use kraken_infer.Multimodal.Embedding.{
  Metadata, ImagePlan, default_min_image_tokens, default_max_image_tokens, is_qwen3vl_merger,
  merge_size, pixel_limit, plan_grid, plan_image_embeddings,
}

-- Every token stands for a square of merged patches, and the squares cover the resized image.
pub record IsGrid (width height : ℕ) (plan : ImagePlan) : Type 0 where
  pub of_width : plan.original_width ≡ width
  pub of_height : plan.original_height ≡ height
  pub covers_width :
      plan.merge_grid_x * plan.spatial_merge_size * plan.patch_size ≡ plan.resized_width
  pub covers_height :
      plan.merge_grid_y * plan.spatial_merge_size * plan.patch_size ≡ plan.resized_height
  pub has_columns : 0 < plan.merge_grid_x
  pub has_rows : 0 < plan.merge_grid_y
  pub counted : plan.image_tokens ≡ plan.merge_grid_x * plan.merge_grid_y

cut_exactly :
    (side patch merge : ℕ)
    → side % patch ≡ 0
    → (side / patch) % merge ≡ 0
    → side / patch / merge * merge * patch ≡ side
cut_exactly side patch merge e f =
    let outer = mod-add-div' (side / patch) merge in
    let inner = mod-add-div' side patch in
    let kept : side / patch / merge * merge ≡ side / patch = omega arith in
    let whole : side / patch * patch ≡ side = omega arith in ap (λ n. n * patch) kept ∙ whole

plan_grid-IsGrid :
    (width height patch merge area low high : ℕ) (resized : Dimensions)
    → Ensures (IsGrid width height) (plan_grid width height patch merge area low high resized)
unfolding plan_grid
plan_grid-IsGrid width height patch merge area low high resized =
    let grid = IsGrid width height in
    let w = resized.width in
    let h = resized.height in
    let x = w / patch / merge in
    let y = h / patch / merge in
    Ensures-guard grid (not (not (w % patch == 0) || not (h % patch == 0))) invalid_argument _
      (λ aligned.
        Ensures-guard grid (not (not (w / patch % merge == 0) || not (h / patch % merge == 0)))
          invalid_argument _
          (λ merged.
            Ensures-guard grid (not (x == 0 || y == 0 || x * y == 0)) invalid_argument _
              (λ has_tokens. Ensures-ok grid (record {
                of_width = refl;
                of_height = refl;
                covers_width = cut_exactly w patch merge (ground arith) (ground arith);
                covers_height = cut_exactly h patch merge (ground arith) (ground arith);
                has_columns = ground arith;
                has_rows = ground arith;
                counted = refl;
              }))))

-- An image that is planned is covered exactly by its tokens: `merge_grid_x` by `merge_grid_y`
-- squares of merged patches, both positive, make up its resized sides, and each is one token.
pub plan_image_embeddings-IsGrid :
    (scaling : Scaling) (metadata : Metadata) (width height : ℕ) {plan : ImagePlan}
    → plan_image_embeddings scaling metadata width height ≡ ok plan
    → IsGrid width height plan
unfolding plan_image_embeddings
plan_image_embeddings-IsGrid scaling metadata width height {plan} e =
    let grid = IsGrid width height in
    Ensures_lem grid
      (Ensures-guard grid (is_qwen3vl_merger metadata) invalid_argument _ (λ is_merger.
        Ensures-bind grid (positive_u32_from_i64 metadata.patch_size) _ (λ patch is_patch.
          Ensures-bind grid (merge_size metadata.spatial_merge_size) _ (λ merge is_merge.
            Ensures-bind grid (checked_u64_mul patch merge) _ (λ align is_align.
              Ensures-guard grid (not (ltb (u32_mod - 1) align)) invalid_argument _ (λ fits.
                Ensures-bind grid (checked_u64_mul align align) _ (λ area is_area.
                  Ensures-bind grid
                    (pixel_limit metadata.image_min_pixels area default_min_image_tokens) _
                    (λ low is_low.
                      Ensures-bind grid
                        (pixel_limit metadata.image_max_pixels area default_max_image_tokens) _
                        (λ high is_high.
                          Ensures-bind grid (smart_resize scaling width height align low high) _
                            (λ resized is_resized.
                              plan_grid-IsGrid width height patch merge area low high
                                resized))))))))))
      e
