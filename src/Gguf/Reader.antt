-- ===== src/Gguf/Reader.antt =====
-- `Reader`: a position in the bytes of a mapped file. Bytes are numbers below 256, and `memcpy` reads
-- them in little-endian order, as on every platform of the engine.
use kraken_infer.Base.{
  ℕ, ◌+◌, ◌-◌, ◌*◌, ◌^◌, Bool, not, ◌||◌, List, [], ◌∷◌, ℤ, pos, negsuc, wrap, u64_max, ltb, ◌==◌,
  if◌then◌else◌, length, take, drop, Outcome, ok, runtime_error, guard, ◌>>=◌, ◌>>◌,
}

pub record Reader : Type 0 where
  pub bytes : List ℕ
  pub position : ℕ

-- The number that little-endian bytes spell.
unfoldable pub little_endian : List ℕ → ℕ
little_endian [] = 0
little_endian (b ∷ bytes) = b + 256 * little_endian bytes

-- The signed value of a `width`-bit pattern.
unfoldable pub to_signed : ℕ → ℕ → ℤ
to_signed width n = if ltb n (2 ^ (width - 1)) then pos n else negsuc (2 ^ width - 1 - n)

unfoldable pub ensure : Reader → ℕ → Outcome (Unit {0})
ensure r count =
    let size = length r.bytes in
    guard (not (ltb size count || ltb (size - count) r.position)) runtime_error

-- The bytes of `memcpy`, and the move of the position behind them.
unfoldable pub read_bytes : Reader → ℕ → Outcome (List ℕ × Reader)
unfolding ensure
read_bytes r count = do
  ensure r count
  ok (take count (drop r.position r.bytes), record r { position = wrap (r.position + count) })

-- `read_pod` of an unsigned type of `bytes` bytes.
unfoldable pub read_pod : ℕ → Reader → Outcome (ℕ × Reader)
unfolding read_bytes little_endian
read_pod count r = do (raw, r) ← read_bytes r count; ok (little_endian raw, r)

-- `read_pod` of a signed type.
unfoldable pub read_signed : ℕ → Reader → Outcome (ℤ × Reader)
unfolding read_pod to_signed
read_signed count r = do (n, r) ← read_pod count r; ok (to_signed (8 * count) n, r)

unfoldable pub boolean : Reader → Outcome (Bool × Reader)
unfolding read_pod
boolean r = do
  (value, r) ← read_pod 1 r
  guard (not (ltb 1 value)) runtime_error
  ok (not (value == 0), r)

unfoldable pub read_string : Reader → Outcome (List ℕ × Reader)
unfolding read_pod read_bytes
read_string r = do
  (size, r) ← read_pod 8 r
  guard (not (ltb u64_max size)) runtime_error
  read_bytes r size

unfoldable pub skip : Reader → ℕ → Outcome Reader
unfolding ensure
skip r count = do ensure r count; ok (record r { position = wrap (r.position + count) })
