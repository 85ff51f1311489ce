-- ===== src/Ipc/Frame.antt =====
-- crates/ghost-ipc/src/frame.rs: length-prefixed frames. A byte is a number; a stream is the list of
-- the bytes that arrive before it closes. The I/O errors of the socket other than its end are left
-- out: a write is the bytes that it sends.
pub mod RoundTrip
use ghost_pages.Common.{
  ℕ, ◌+◌, ◌*◌, ◌/◌, ◌%◌, ◌^◌, List, [], ◌∷◌, ◌++◌, Option, none, some, length, take, drop, ltb,
  if◌then◌else◌,
}
use ghost_pages.Core.Types.{GhostResult, ok, err, ipc_error}

unfoldable pub max_frame_size : ℕ
max_frame_size = 256 * 1024 * 1024

-- `u32::to_be_bytes` and `u32::from_be_bytes`.
unfoldable pub to_be_bytes : ℕ → List ℕ
to_be_bytes n = n / 16_777_216 % 256 ∷ n / 65_536 % 256 ∷ n / 256 % 256 ∷ n % 256 ∷ []

unfoldable pub from_be_bytes : List ℕ → ℕ
from_be_bytes (a ∷ b ∷ c ∷ d ∷ []) = a * 16_777_216 + b * 65_536 + c * 256 + d
from_be_bytes _ = 0

-- `read_exact`: the bytes and the rest of the stream, or the end of the stream.
unfoldable pub read_exact : ℕ → List ℕ → Option (List ℕ × List ℕ)
read_exact n stream = if ltb (length stream) n then none else some (take n stream, drop n stream)

unfoldable pub read_payload : ℕ → List ℕ → List ℕ × GhostResult (List ℕ)
unfolding read_exact
read_payload len stream = elim (read_exact len stream) [
  | none ↦ ([], err ipc_error)
  | some (payload, rest) ↦ (rest, ok payload)
]

-- What is left of the stream, and the result.
unfoldable pub read_frame : List ℕ → List ℕ × GhostResult (List ℕ)
unfolding read_exact read_payload from_be_bytes
read_frame stream = elim (read_exact 4 stream) [
  | none ↦ ([], err ipc_error)
  | some (len_buf, rest) ↦
      if ltb max_frame_size (from_be_bytes len_buf)
      then (rest, err ipc_error)
      else read_payload (from_be_bytes len_buf) rest
]

unfoldable pub write_frame : List ℕ → List ℕ
unfolding to_be_bytes
write_frame bytes = to_be_bytes (length bytes % 2 ^ 32) ++ bytes

-- Several frames in a row.
unfoldable pub write_frames : List (List ℕ) → List ℕ
write_frames [] = []
write_frames (f ∷ fs) = write_frame f ++ write_frames fs

unfoldable pub read_frames : List (List ℕ) → List ℕ → List ℕ × List (GhostResult (List ℕ))
read_frames [] stream = (stream, [])
read_frames (_ ∷ more) stream =
    let (rest, r) = read_frame stream in let (rest', rs) = read_frames more rest in (rest', r ∷ rs)
