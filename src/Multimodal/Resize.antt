-- ===== src/Multimodal/Resize.antt =====
-- Checked sizes and `qwen35_smart_resize` of src/runtime/qwen35_multimodal.cpp. `std::sqrt` and the
-- division and product of doubles behind it are the parameter of `smart_resize`.
use kraken_infer.Base.{
  ℕ, ◌+◌, ◌*◌, ◌/◌, ◌%◌, ◌^◌, ◌-◌, max, not, ◌||◌, ℤ, pos, negsuc, ltb, ◌==◌, if◌then◌else◌,
  product_exceeds, Outcome, ok, err, invalid_argument, guard, ◌>>=◌, ◌>>◌,
}

abbrev pub u32_mod : ℕ
u32_mod = 2 ^ 32

unfoldable pub positive_u32_from_i64 : ℤ → Outcome ℕ
positive_u32_from_i64 (negsuc value) = err invalid_argument
positive_u32_from_i64 (pos value) = do
  guard (not (value == 0)) invalid_argument
  guard (not (ltb (u32_mod - 1) value)) invalid_argument
  ok value

unfoldable pub checked_u64_mul : ℕ → ℕ → Outcome ℕ
checked_u64_mul lhs rhs = do guard (not (product_exceeds rhs lhs)) invalid_argument; ok (lhs * rhs)

-- `std::round` of a quotient of 32-bit numbers, half away from zero. The double quotient has 53 bits,
-- and a quotient that is not a half is at least 1 / (2 * factor) away from one, so it rounds like
-- the exact quotient. The product is a 32-bit one.
unfoldable pub round_by_factor : ℕ → ℕ → ℕ
round_by_factor value factor = (2 * value + factor) / (2 * factor) % u32_mod * factor % u32_mod

pub record Dimensions : Type 0 where
  pub width : ℕ
  pub height : ℕ

-- What the arithmetic on doubles comes to. With `shrink pixels limit side factor`,
-- `std::floor(side / std::sqrt(pixels / limit) / factor)` as a 32-bit number, and with `grow`,
-- `std::ceil(side * std::sqrt(limit / pixels) / factor)`.
pub record Scaling : Type 0 where
  pub shrink : ℕ → ℕ → ℕ → ℕ → ℕ
  pub grow : ℕ → ℕ → ℕ → ℕ → ℕ

-- `floor_by_factor(side / beta, factor)`.
unfoldable pub floor_by_factor : Scaling → ℕ → ℕ → ℕ → ℕ → ℕ
floor_by_factor scaling pixels limit side factor =
    scaling.shrink pixels limit side factor * factor % u32_mod

-- `ceil_by_factor(side * beta, factor)`.
unfoldable pub ceil_by_factor : Scaling → ℕ → ℕ → ℕ → ℕ → ℕ
ceil_by_factor scaling pixels limit side factor =
    scaling.grow pixels limit side factor * factor % u32_mod

-- One side: the one it is rounded to, or the one that the limits on the pixels ask for.
unfoldable pub resized_side : Scaling → ℕ → ℕ → ℕ → ℕ → ℕ → ℕ → ℕ
unfolding round_by_factor floor_by_factor ceil_by_factor
resized_side scaling image_pixels aligned_pixels min_pixels max_pixels align_size side =
    if ltb max_pixels aligned_pixels
    then max align_size (floor_by_factor scaling image_pixels max_pixels side align_size)
    else if ltb aligned_pixels min_pixels
    then ceil_by_factor scaling image_pixels min_pixels side align_size
    else max align_size (round_by_factor side align_size)

unfoldable pub smart_resize : Scaling → ℕ → ℕ → ℕ → ℕ → ℕ → Outcome Dimensions
unfolding checked_u64_mul resized_side round_by_factor
smart_resize scaling width height align_size min_pixels max_pixels = do
  guard (not (width == 0 || height == 0)) invalid_argument
  guard (not (align_size == 0)) invalid_argument
  guard (not (min_pixels == 0 || max_pixels == 0 || ltb max_pixels min_pixels)) invalid_argument
  image_pixels ← checked_u64_mul width height
  aligned_pixels ←
      checked_u64_mul (max align_size (round_by_factor width align_size))
        (max align_size (round_by_factor height align_size))
  let new_width =
      resized_side scaling image_pixels aligned_pixels min_pixels max_pixels align_size width
  let new_height =
      resized_side scaling image_pixels aligned_pixels min_pixels max_pixels align_size height
  guard (not (new_width == 0 || new_height == 0)) invalid_argument
  ok (record { width = new_width; height = new_height })
