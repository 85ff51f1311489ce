-- ===== src/Ipc/Frame/RoundTrip.antt =====
-- What is written is read back.
use ghost_pages.Common.{
  ℕ, ◌%◌, ◌^◌, ◌≤◌, ◌<◌, ◌≡◌, refl, ap, ◌∙◌, List, [], ◌∷◌, ◌++◌, map, All, some, length, take,
  drop, length-append, ltb, false, if◌then◌else◌, arith,
}
use mathlib.Core.List.{append_assoc}
use ghost_pages.Core.Types.{GhostResult, ok, err, ipc_error}
use ghost_pages.Ipc.Frame.{
  max_frame_size, to_be_bytes, from_be_bytes, read_exact, read_payload, read_frame, write_frame,
  write_frames, read_frames,
}

from_be_bytes-to_be_bytes : (n : ℕ) → n < 2 ^ 32 → from_be_bytes (to_be_bytes n) ≡ n
unfolding from_be_bytes to_be_bytes
from_be_bytes-to_be_bytes n h = omega arith

take-append : (xs ys : List ℕ) → take (length xs) (xs ++ ys) ≡ xs
take-append [] ys = refl
take-append (x ∷ xs) ys = ap (◌∷◌ x) (take-append xs ys)

drop-append_length : (xs ys : List ℕ) → drop (length xs) (xs ++ ys) ≡ ys
drop-append_length [] ys = refl
drop-append_length (x ∷ xs) ys = drop-append_length xs ys

read_exact-append : (xs ys : List ℕ) → read_exact (length xs) (xs ++ ys) ≡ some (xs, ys)
unfolding read_exact
read_exact-append xs ys =
    let enough : ltb (length (xs ++ ys)) (length xs) ≡ false =
      ground (arith, length-append xs ys) in
    rw (enough, read_exact, take-append xs ys, drop-append_length xs ys) refl

-- The header and then anything.
header :
    (n : ℕ) (stream : List ℕ)
    → n < 2 ^ 32
    → read_frame (to_be_bytes n ++ stream)
      ≡ (if ltb max_frame_size n then (stream, err ipc_error) else read_payload n stream)
unfolding read_frame to_be_bytes max_frame_size
header n stream h =
    rw (read_exact-append (to_be_bytes n) stream, read_frame, from_be_bytes-to_be_bytes n h) refl

in_words : (n : ℕ) → n ≤ max_frame_size → n < 2 ^ 32
unfolding max_frame_size
in_words n h = omega arith

payload :
    (bytes stream : List ℕ) → read_payload (length bytes) (bytes ++ stream) ≡ (stream, ok bytes)
unfolding read_payload
payload bytes stream = rw (read_exact-append bytes stream, read_payload) refl

-- A payload of less than 2^32 bytes that is within the limit is read back as it was written, and the
-- stream goes on right after it; one beyond the limit can be written too, but reading it is an error.
pub read_frame-write_frame :
    (bytes stream : List ℕ)
    → length bytes < 2 ^ 32
    → read_frame (write_frame bytes ++ stream) ≡ (
        if ltb max_frame_size (length bytes)
        then (bytes ++ stream, err ipc_error)
        else (stream, ok bytes))
unfolding write_frame read_payload
read_frame-write_frame bytes stream h =
    let n : length bytes % 2 ^ 32 ≡ length bytes = omega arith in
    ap (λ k. read_frame ((to_be_bytes k ++ bytes) ++ stream)) n
    ∙ ap read_frame (append_assoc (to_be_bytes (length bytes)) bytes stream)
    ∙ header (length bytes) (bytes ++ stream) h
    ∙ ap
        (λ (x : List ℕ × GhostResult (List ℕ)).
          if ltb max_frame_size (length bytes) then (bytes ++ stream, err ipc_error) else x)
        (payload bytes stream)

read_frame_within :
    (bytes stream : List ℕ)
    → length bytes ≤ max_frame_size
    → read_frame (write_frame bytes ++ stream) ≡ (stream, ok bytes)
read_frame_within bytes stream h =
    let small : ltb max_frame_size (length bytes) ≡ false = ground arith in
    read_frame-write_frame bytes stream (in_words (length bytes) h) ∙ rw small refl

-- Any number of frames within the limit, written one after the other, are read back one by one as
-- they were written, and nothing of what follows is taken.
pub read_frames-write_frames :
    (fs : List (List ℕ)) (stream : List ℕ)
    → All (λ f. length f ≤ max_frame_size) fs
    → read_frames fs (write_frames fs ++ stream) ≡ (stream, map (λ f. ok f) fs)
unfolding write_frames read_frames
read_frames-write_frames [] stream a = refl
read_frames-write_frames (f ∷ fs) stream a =
    let first =
      ap read_frame (append_assoc (write_frame f) (write_frames fs) stream)
      ∙ read_frame_within f (write_frames fs ++ stream) a.0 in
    ap
      (λ (x : List ℕ × GhostResult (List ℕ)).
        ((read_frames fs x.0).0, x.1 ∷ (read_frames fs x.0).1))
      first
    ∙ ap (λ (x : List ℕ × List (GhostResult (List ℕ))). (x.0, ok f ∷ x.1))
        (read_frames-write_frames fs stream a.1)
