-- ===== src/Replay/Bytes.antt =====
-- What crates/ghost-replay/src/format.rs uses of byte streams: `read_exact` and the early return by
-- `?`. A stream is the list of the bytes that are left of the file. Of the I/O errors only the end of
-- the file is modelled, at which the rest of the stream has been consumed.
use ghost_pages.Common.{
  ℕ, ◌^◌, ◌<◌, ◌≡◌, refl, sym, ap, ◌∙◌, false, ◌++◌, length, take, drop, length-append, ltb,
  if◌then◌else◌, arith, [],
}
use ghost_pages.Core.Types.{GhostResult, ok, err, io}
use ghost_pages.Common.Bytes.{
  Bytes, to_le_bytes, from_le_bytes, length-to_le_bytes, take-append_length, drop-append_length,
  from_le_bytes-to_le_bytes,
}

-- What a function that reads leaves of the stream, and its result.
abbrev pub Read {ℓ} : Type ℓ → Type ℓ
Read A = Bytes → Bytes × GhostResult A

abbrev pub after {ℓ κ} :
    {A : Type ℓ} {B : Type κ} → Bytes × GhostResult A → (A → Read B) → Bytes × GhostResult B
after (rest, ok a) f = f a rest
after (rest, err e) f = (rest, err e)

infixl 5 ◌>>=◌
abbrev pub ◌>>=◌ {ℓ κ} : {A : Type ℓ} {B : Type κ} → Read A → (A → Read B) → Read B
◌>>=◌ m f stream = after (m stream) f

abbrev pub give {ℓ} : {A : Type ℓ} → A → Read A
give a stream = (stream, ok a)

abbrev pub refuse {ℓ} : {A : Type ℓ} → GhostResult A → Read A
refuse r stream = (stream, r)

unfoldable pub read_exact : ℕ → Read Bytes
read_exact n stream =
    if ltb (length stream) n then ([], err io) else (drop n stream, ok (take n stream))

-- A number of `w` bytes.
unfoldable pub read_number : (w : ℕ) → Read ℕ
read_number w = do bytes ← read_exact w; give (from_le_bytes bytes)

pub read_exact-append : (xs rest : Bytes) → read_exact (length xs) (xs ++ rest) ≡ (rest, ok xs)
unfolding read_exact
read_exact-append xs rest =
    let enough : ltb (length (xs ++ rest)) (length xs) ≡ false =
      ground (arith, length-append xs rest) in
    rw (enough, read_exact, take-append_length xs rest, drop-append_length xs rest) refl

-- A number that fits is read back from its bytes.
pub read_number-to_le_bytes :
    (w n : ℕ) (rest : Bytes) → n < 256 ^ w → read_number w (to_le_bytes w n ++ rest) ≡ (rest, ok n)
unfolding read_number
read_number-to_le_bytes w n rest h =
    let e : read_exact w (to_le_bytes w n ++ rest) ≡ (rest, ok (to_le_bytes w n)) =
      ap (λ k. read_exact k (to_le_bytes w n ++ rest)) (sym (length-to_le_bytes w n))
      ∙ read_exact-append (to_le_bytes w n) rest in
    rw (e, from_le_bytes-to_le_bytes w n h) refl
