-- ===== src/Multimodal/Rounds.antt =====
-- The loop over the segments of a JPEG file comes to an end within its fuel.
use kraken_infer.Base.{
  length_error, ℕ, ◌<◌, length, Outcome, ok, err, invalid_argument, overflow_error, runtime_error,
}
use kraken_infer.Multimodal.Resize.{Dimensions}
use kraken_infer.Multimodal.Headers.{JpegRound, returns, continues, jpeg_loop}

-- A call that does not run out of fuel.
abbrev Ends : Outcome Dimensions → Type 0
Ends (ok dimensions) = Unit
Ends (err invalid_argument) = Unit
Ends (err overflow_error) = Unit
Ends (err length_error) = Unit
Ends (err runtime_error) = ⊥

-- A round that ends the loop, or leaves fewer than `n` bytes.
abbrev Shorter : ℕ → JpegRound → Type 0
Shorter n (returns result) = Ends result
Shorter n (continues rest) = length rest < n

abbrev run : ℕ → JpegRound → Outcome Dimensions
run fuel (returns result) = result
run fuel (continues rest) = jpeg_loop fuel rest
