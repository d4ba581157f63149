-- ===== src/Multimodal/Jpeg.antt =====
-- The size that is read from a JPEG file of segments, and that the loop always comes to an end.
use kraken_infer.Base.{
  ℕ, zero, suc, ◌+◌, ◌/◌, ◌%◌, ◌≤◌, ◌<◌, ◌≡◌, refl, ap, ◌∙◌, true, false, ◌&&◌, ◌||◌, List, [], ◌∷◌,
  ◌++◌, All, length, drop, length-append, ltb, leb, ◌==◌, ok, arith,
}
use kraken_infer.Multimodal.Headers.{
  read_be_u16, is_jpeg_sof_marker, skip_to_marker, skip_fill, JpegRound, returns, continues,
  sof_dimensions, jpeg_segment, jpeg_marker, jpeg_round, jpeg_loop, infer_jpeg_dimensions,
}

-- A number of 16 bits in two bytes, the high one first, in front of other bytes.
abbrev pub be_u16 : ℕ → List ℕ → List ℕ
be_u16 n rest = n / 256 ∷ n % 256 ∷ rest

-- A segment that tells nothing of the size, such as a table or a comment.
pub record Segment : Type 0 where
  pub marker : ℕ
  pub payload : List ℕ

pub record IsSkipped (s : Segment) : Type 0 where
  pub not_fill : (s.marker == 0xff) ≡ false
  pub not_end : (s.marker == 0xd9 || s.marker == 0xda) ≡ false
  pub not_restart : (leb 0xd0 s.marker && leb s.marker 0xd7) ≡ false
  pub not_frame : is_jpeg_sof_marker s.marker ≡ false

abbrev pub encode_segments : List Segment → List ℕ → List ℕ
encode_segments [] rest = rest
encode_segments (s ∷ segments) rest =
    0xff
    ∷ s.marker
    ∷ be_u16 (suc (suc (length s.payload))) (s.payload ++ encode_segments segments rest)

be_u16_lem : (n : ℕ) (rest : List ℕ) → read_be_u16 (be_u16 n rest) 0 ≡ n
unfolding read_be_u16
be_u16_lem n rest = omega arith

drop_payload : (payload rest : List ℕ) → drop (length payload) (payload ++ rest) ≡ rest
drop_payload [] rest = refl
drop_payload (byte ∷ payload) rest = drop_payload payload rest

jpeg_segment-continues :
    (s : Segment) (rest : List ℕ)
    → IsSkipped s
    → jpeg_segment s.marker (be_u16 (suc (suc (length s.payload))) (s.payload ++ rest))
      ≡ continues rest
unfolding jpeg_segment
jpeg_segment-continues s rest skipped =
    let n = suc (suc (length s.payload)) in
    let sum = length-append s.payload rest in
    let in_file : (ltb n 2 || ltb (length (be_u16 n (s.payload ++ rest))) n) ≡ false =
      ground arith in
    rw (be_u16_lem n (s.payload ++ rest), in_file, skipped.not_frame)
      (ap continues (drop_payload s.payload rest))

jpeg_marker-reads :
    (marker high low : ℕ) (rest : List ℕ)
    → (marker == 0xd9 || marker == 0xda) ≡ false
    → (leb 0xd0 marker && leb marker 0xd7) ≡ false
    → jpeg_marker (marker ∷ high ∷ low ∷ rest) ≡ jpeg_segment marker (high ∷ low ∷ rest)
unfolding jpeg_marker
jpeg_marker-reads marker high low rest not_end not_restart =
    let two_bytes : ltb (length (high ∷ low ∷ rest)) 2 ≡ false = ground arith in
    rw (not_end, not_restart, two_bytes)

-- A round on a marker with its segment.
jpeg_round-reads :
    (marker high low : ℕ) (rest : List ℕ)
    → (marker == 0xff) ≡ false
    → (marker == 0xd9 || marker == 0xda) ≡ false
    → (leb 0xd0 marker && leb marker 0xd7) ≡ false
    → jpeg_round (0xff ∷ marker ∷ high ∷ low ∷ rest) ≡ jpeg_segment marker (high ∷ low ∷ rest)
unfolding jpeg_round skip_to_marker skip_fill
jpeg_round-reads marker high low rest not_fill not_end not_restart =
    let four_bytes : leb (length (0xff ∷ marker ∷ high ∷ low ∷ rest)) 1 ≡ false = ground arith in
    rw (four_bytes, not_fill) (jpeg_marker-reads marker high low rest not_end not_restart)

jpeg_loop-round :
    (fuel marker high low : ℕ) (rest : List ℕ) {next : JpegRound}
    → jpeg_round (0xff ∷ marker ∷ high ∷ low ∷ rest) ≡ next
    → jpeg_loop (suc fuel) (0xff ∷ marker ∷ high ∷ low ∷ rest)
      ≡ (elim next [ returns result ↦ result | continues rest ↦ jpeg_loop fuel rest ])
unfolding jpeg_loop
jpeg_loop-round fuel marker high low rest e =
    let four_bytes : leb (length (0xff ∷ marker ∷ high ∷ low ∷ rest)) 3 ≡ false = ground arith in
    rw (four_bytes, e) refl

-- A frame header: its length, the precision, the height, the width and what follows.
abbrev pub encode_frame :
    (marker segment_length precision height width : ℕ) (rest : List ℕ) → List ℕ
encode_frame marker segment_length precision height width rest =
    0xff ∷ marker ∷ be_u16 segment_length (precision ∷ be_u16 height (be_u16 width rest))

IsFrame-plain :
    (marker : ℕ)
    → is_jpeg_sof_marker marker ≡ true
    → ((marker == 0xff) ≡ false)
      × ((marker == 0xd9 || marker == 0xda) ≡ false)
      × ((leb 0xd0 marker && leb marker 0xd7) ≡ false)
unfolding is_jpeg_sof_marker
IsFrame-plain marker frame = (ground arith, ground arith, ground arith)

jpeg_segment-returns :
    (marker segment_length precision height width : ℕ) (rest : List ℕ)
    → is_jpeg_sof_marker marker ≡ true
    → 7 ≤ segment_length
    → segment_length ≤ 7 + length rest
    → 0 < height
    → 0 < width
    → jpeg_segment marker (be_u16 segment_length (precision ∷ be_u16 height (be_u16 width rest)))
      ≡ returns (ok (record { width = width; height = height }))
unfolding jpeg_segment sof_dimensions
jpeg_segment-returns marker segment_length precision height width rest frame long inside h w =
    let bytes = be_u16 segment_length (precision ∷ be_u16 height (be_u16 width rest)) in
    let in_file : (ltb segment_length 2 || ltb (length bytes) segment_length) ≡ false =
      ground arith in
    let seven : ltb segment_length 7 ≡ false = ground arith in
    let reads_height : read_be_u16 bytes 3 ≡ height = be_u16_lem height [] in
    let reads_width : read_be_u16 bytes 5 ≡ width = be_u16_lem width [] in
    let nonzero : (width == 0 || height == 0) ≡ false = ground arith in
    rw
      (
        be_u16_lem segment_length (precision ∷ be_u16 height (be_u16 width rest)),
        in_file,
        frame,
        seven,
        reads_height,
        reads_width,
        nonzero,
      )
      refl

length-encode_segments :
    (segments : List Segment) (rest : List ℕ)
    → length segments + length rest ≤ length (encode_segments segments rest)
length-encode_segments [] rest = omega arith
length-encode_segments (s ∷ segments) rest =
    let more = length-encode_segments segments rest in
    let sum = length-append s.payload (encode_segments segments rest) in omega arith

jpeg_loop-encode_frame :
    (segments : List Segment) (fuel marker segment_length precision height width : ℕ)
    (rest : List ℕ)
    → length segments < fuel
    → All IsSkipped segments
    → is_jpeg_sof_marker marker ≡ true
    → 7 ≤ segment_length
    → segment_length ≤ 7 + length rest
    → 0 < height
    → 0 < width
    → jpeg_loop fuel
        (encode_segments segments (encode_frame marker segment_length precision height width rest))
      ≡ ok (record { width = width; height = height })
jpeg_loop-encode_frame segments zero marker _ _ _ _ _ fuel _ _ _ _ _ _ = absurd (omega arith)
jpeg_loop-encode_frame [] (suc fuel) marker n precision height width rest enough skipped frame long
      inside h w =
    let (not_fill, not_end, not_restart) = IsFrame-plain marker frame in
    let body = precision ∷ be_u16 height (be_u16 width rest) in
    jpeg_loop-round fuel marker (n / 256) (n % 256) body (
      jpeg_round-reads marker (n / 256) (n % 256) body not_fill not_end not_restart
      ∙ jpeg_segment-returns marker n precision height width rest frame long inside h w)
jpeg_loop-encode_frame (s ∷ segments) (suc fuel) marker n precision height width rest enough
      (skipped, all) frame long inside h w =
    let size = suc (suc (length s.payload)) in
    let later = encode_segments segments (encode_frame marker n precision height width rest) in
    let body = s.payload ++ later in
    jpeg_loop-round fuel s.marker (size / 256) (size % 256) body (
      jpeg_round-reads s.marker (size / 256) (size % 256) body skipped.not_fill skipped.not_end
        skipped.not_restart
      ∙ jpeg_segment-continues s later skipped)
    ∙ jpeg_loop-encode_frame segments fuel marker n precision height width rest (omega arith) all
        frame long inside h w

-- A JPEG file whose frame header comes behind any number of segments that do not tell the size has
-- the size of that header: its height and width, when both are positive and the header is at least
-- seven bytes long and lies within the file. What follows the header is not read.
pub infer_jpeg_dimensions-encode_frame :
    (segments : List Segment) (marker segment_length precision height width : ℕ) (rest : List ℕ)
    → All IsSkipped segments
    → is_jpeg_sof_marker marker ≡ true
    → 7 ≤ segment_length
    → segment_length ≤ 7 + length rest
    → 0 < height
    → 0 < width
    → infer_jpeg_dimensions (
        0xff
        ∷ 0xd8
        ∷ encode_segments segments (encode_frame marker segment_length precision height width rest))
      ≡ ok (record { width = width; height = height })
unfolding infer_jpeg_dimensions
infer_jpeg_dimensions-encode_frame segments marker segment_length precision height width rest
      skipped frame long inside h w =
    let file =
      encode_segments segments (encode_frame marker segment_length precision height width rest) in
    let fuel =
      length-encode_segments segments
        (encode_frame marker segment_length precision height width rest) in
    let long_enough : ltb (length (0xff ∷ 0xd8 ∷ file)) 4 ≡ false = ground arith in
    rw long_enough (
      jpeg_loop-encode_frame segments (suc (suc (suc (length file)))) marker segment_length
        precision height width rest (omega arith) skipped frame long inside h w)
