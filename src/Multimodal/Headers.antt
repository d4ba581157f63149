-- ===== src/Multimodal/Headers.antt =====
-- The size of an image from the header of its file: `infer_png_dimensions`,
-- `infer_jpeg_dimensions` and `infer_qwen35_image_dimensions`. Bytes are numbers below 256, and the
-- cursor of the JPEG loop is the bytes from it on.
use kraken_infer.Base.{
  ℕ, zero, suc, ◌+◌, ◌*◌, ◌^◌, Bool, not, ◌&&◌, ◌||◌, List, [], ◌∷◌, length, get_or, take, drop,
  ltb, leb, ◌==◌, if◌then◌else◌, string_eq, Outcome, ok, err, invalid_argument, runtime_error,
  guard, ◌>>◌,
}
use kraken_infer.Tokenizer.Vocabulary.{bytes_of}
use kraken_infer.Multimodal.Resize.{Dimensions}

-- The shifted bytes have no bit in common, so `|` adds.
unfoldable pub read_be_u16 : List ℕ → ℕ → ℕ
read_be_u16 bytes offset = get_or bytes offset 0 * 2 ^ 8 + get_or bytes (offset + 1) 0

unfoldable pub read_be_u32 : List ℕ → ℕ → ℕ
read_be_u32 bytes offset =
    get_or bytes offset 0 * 2 ^ 24
    + get_or bytes (offset + 1) 0 * 2 ^ 16
    + get_or bytes (offset + 2) 0 * 2 ^ 8
    + get_or bytes (offset + 3) 0

abbrev pub nonzero_dimensions : ℕ → ℕ → Outcome Dimensions
nonzero_dimensions width height = do
  guard (not (width == 0 || height == 0)) invalid_argument
  ok (record { width = width; height = height })

abbrev pub png_signature : List ℕ
png_signature = 0x89 ∷ 0x50 ∷ 0x4e ∷ 0x47 ∷ 0x0d ∷ 0x0a ∷ 0x1a ∷ 0x0a ∷ []

unfoldable pub infer_png_dimensions : List ℕ → Outcome Dimensions
unfolding string_eq read_be_u32
infer_png_dimensions image_bytes = do
  guard (not (ltb (length image_bytes) 24 || not (string_eq (take 8 image_bytes) png_signature)))
      invalid_argument
  guard (string_eq (take 4 (drop 12 image_bytes)) (bytes_of "IHDR")) invalid_argument
  nonzero_dimensions (read_be_u32 image_bytes 16) (read_be_u32 image_bytes 20)

unfoldable pub is_jpeg_sof_marker : ℕ → Bool
is_jpeg_sof_marker marker =
    leb 0xc0 marker && leb marker 0xc3
    || leb 0xc5 marker && leb marker 0xc7
    || leb 0xc9 marker && leb marker 0xcb
    || leb 0xcd marker && leb marker 0xcf

unfoldable pub skip_to_marker : List ℕ → List ℕ
skip_to_marker [] = []
skip_to_marker (byte ∷ rest) =
    let later = skip_to_marker rest in if byte == 0xff then byte ∷ rest else later

unfoldable pub skip_fill : List ℕ → List ℕ
skip_fill [] = []
skip_fill (byte ∷ rest) = let later = skip_fill rest in if byte == 0xff then later else byte ∷ rest

-- How a round of the loop ends: the function returns, or the cursor moves on. The source's `break`
-- leads to the error behind the loop.
pub data JpegRound : Type 0 where
  returns : Outcome Dimensions → JpegRound
  continues : List ℕ → JpegRound

abbrev pub breaks : JpegRound
breaks = returns (err invalid_argument)

unfoldable pub sof_dimensions : ℕ → List ℕ → Outcome Dimensions
unfolding read_be_u16
sof_dimensions segment_length rest = do
  guard (not (ltb segment_length 7)) invalid_argument
  nonzero_dimensions (read_be_u16 rest 5) (read_be_u16 rest 3)

-- The segment behind a marker.
unfoldable pub jpeg_segment : ℕ → List ℕ → JpegRound
unfolding read_be_u16 is_jpeg_sof_marker sof_dimensions
jpeg_segment marker rest =
    let segment_length = read_be_u16 rest 0 in
    if ltb segment_length 2 || ltb (length rest) segment_length
    then breaks
    else if is_jpeg_sof_marker marker
    then returns (sof_dimensions segment_length rest)
    else continues (drop segment_length rest)

unfoldable pub jpeg_marker : List ℕ → JpegRound
unfolding jpeg_segment
jpeg_marker [] = breaks
jpeg_marker (marker ∷ rest) =
    if marker == 0xd9 || marker == 0xda
    then breaks
    else if leb 0xd0 marker && leb marker 0xd7
    then continues rest
    else if ltb (length rest) 2
    then breaks
    else jpeg_segment marker rest

-- The body of the loop.
unfoldable pub jpeg_round : List ℕ → JpegRound
unfolding skip_to_marker skip_fill jpeg_marker
jpeg_round bytes =
    let here = skip_to_marker bytes in
    if leb (length here) 1 then breaks else jpeg_marker (skip_fill here)

-- The loop, on fuel. Running out of fuel is the `runtime_error` that the function never raises.
unfoldable pub jpeg_loop : ℕ → List ℕ → Outcome Dimensions
unfolding jpeg_round
jpeg_loop zero bytes = err runtime_error
jpeg_loop (suc fuel) bytes =
    if leb (length bytes) 3
    then err invalid_argument
    else elim (jpeg_round bytes) [ returns result ↦ result | continues rest ↦ jpeg_loop fuel rest ]

unfoldable pub infer_jpeg_dimensions : List ℕ → Outcome Dimensions
unfolding jpeg_loop
infer_jpeg_dimensions image_bytes = do
  guard
      (not (
        ltb (length image_bytes) 4
        || not (get_or image_bytes 0 0 == 0xff)
        || not (get_or image_bytes 1 0 == 0xd8)))
      invalid_argument
  jpeg_loop (suc (length image_bytes)) (drop 2 image_bytes)

unfoldable pub infer_image_dimensions : List ℕ → List ℕ → Outcome Dimensions
unfolding string_eq infer_png_dimensions infer_jpeg_dimensions
infer_image_dimensions mime_type image_bytes =
    if string_eq mime_type (bytes_of "image/png")
    then infer_png_dimensions image_bytes
    else if string_eq mime_type (bytes_of "image/jpeg")
        || string_eq mime_type (bytes_of "image/jpg")
    then infer_jpeg_dimensions image_bytes
    else err invalid_argument
