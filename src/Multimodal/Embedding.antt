-- ===== src/Multimodal/Embedding.antt =====
-- `plan_qwen35_image_embeddings`: the grid of tokens that an image takes in a prompt.
use kraken_infer.Base.{
  ℕ, ◌*◌, ◌/◌, ◌%◌, ◌-◌, Bool, not, ◌||◌, List, ℤ, pos, negsuc, ltb, ◌==◌, if◌then◌else◌, string_eq,
  Outcome, ok, invalid_argument, guard, ◌>>=◌, ◌>>◌,
}
use kraken_infer.Tokenizer.Vocabulary.{bytes_of}
use kraken_infer.Multimodal.Resize.{
  Scaling, Dimensions, u32_mod, positive_u32_from_i64, checked_u64_mul, smart_resize,
}

-- The fields of `Qwen35MmprojMetadata` that the plans read.
pub record Metadata : Type 0 where
  pub projector_type : List ℕ
  pub vision_projector_type : List ℕ
  pub spatial_merge_size : ℤ
  pub patch_size : ℤ
  pub image_min_pixels : ℕ
  pub image_max_pixels : ℕ
  pub projector_output_width : ℕ

pub record ImagePlan : Type 0 where
  pub original_width : ℕ
  pub original_height : ℕ
  pub resized_width : ℕ
  pub resized_height : ℕ
  pub patch_grid_x : ℕ
  pub patch_grid_y : ℕ
  pub merge_grid_x : ℕ
  pub merge_grid_y : ℕ
  pub patch_size : ℕ
  pub spatial_merge_size : ℕ
  pub image_tokens : ℕ
  pub min_image_tokens : ℕ
  pub max_image_tokens : ℕ

abbrev pub merger : List ℕ
merger = bytes_of "qwen3vl_merger"

unfoldable pub is_qwen3vl_merger : Metadata → Bool
unfolding string_eq
is_qwen3vl_merger metadata =
    string_eq metadata.projector_type merger || string_eq metadata.vision_projector_type merger

-- The size in the metadata when it is positive, and 2 otherwise.
unfoldable pub merge_size : ℤ → Outcome ℕ
unfolding positive_u32_from_i64
merge_size (negsuc value) = ok 2
merge_size (pos value) = if value == 0 then ok 2 else positive_u32_from_i64 (pos value)

-- A limit of the metadata, or so many patches when it has none.
unfoldable pub pixel_limit : ℕ → ℕ → ℕ → Outcome ℕ
unfolding checked_u64_mul
pixel_limit limit patch_area tokens =
    if limit == 0 then checked_u64_mul patch_area tokens else ok limit

abbrev pub default_min_image_tokens : ℕ
default_min_image_tokens = 8

abbrev pub default_max_image_tokens : ℕ
default_max_image_tokens = 4096

unfoldable pub plan_grid : ℕ → ℕ → ℕ → ℕ → ℕ → ℕ → ℕ → Dimensions → Outcome ImagePlan
plan_grid image_width image_height patch merge patch_area min_pixels max_pixels resized = do
  guard (not (not (resized.width % patch == 0) || not (resized.height % patch == 0)))
      invalid_argument
  let patches_x = resized.width / patch
  let patches_y = resized.height / patch
  guard (not (not (patches_x % merge == 0) || not (patches_y % merge == 0))) invalid_argument
  let merges_x = patches_x / merge
  let merges_y = patches_y / merge
  guard (not (merges_x == 0 || merges_y == 0 || merges_x * merges_y == 0)) invalid_argument
  ok (record {
    original_width = image_width;
    original_height = image_height;
    resized_width = resized.width;
    resized_height = resized.height;
    patch_grid_x = patches_x;
    patch_grid_y = patches_y;
    merge_grid_x = merges_x;
    merge_grid_y = merges_y;
    patch_size = patch;
    spatial_merge_size = merge;
    image_tokens = merges_x * merges_y;
    min_image_tokens = min_pixels / patch_area;
    max_image_tokens = max_pixels / patch_area;
  })

unfoldable pub plan_image_embeddings : Scaling → Metadata → ℕ → ℕ → Outcome ImagePlan
plan_image_embeddings scaling metadata image_width image_height = do
  guard (is_qwen3vl_merger metadata) invalid_argument
  patch ← positive_u32_from_i64 metadata.patch_size
  merge ← merge_size metadata.spatial_merge_size
  align_size ← checked_u64_mul patch merge
  guard (not (ltb (u32_mod - 1) align_size)) invalid_argument
  patch_area ← checked_u64_mul align_size align_size
  min_pixels ← pixel_limit metadata.image_min_pixels patch_area default_min_image_tokens
  max_pixels ← pixel_limit metadata.image_max_pixels patch_area default_max_image_tokens
  resized ← smart_resize scaling image_width image_height align_size min_pixels max_pixels
  plan_grid image_width image_height patch merge patch_area min_pixels max_pixels resized
