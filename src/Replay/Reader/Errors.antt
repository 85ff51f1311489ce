-- ===== src/Replay/Reader/Errors.antt =====
-- What the reader refuses.
use ghost_pages.Common.{◌<◌, ◌≡◌, ◌≢◌, refl, ap, ◌∙◌, true, false, ◌++◌, drop, leb, ◌==◌, arith}
use ghost_pages.Core.Types.{err, replay_error}
use ghost_pages.Common.Bytes.{Bytes}
use ghost_pages.Replay.Format.{has_checksum, TraceRecord, write_record, read_record}
use ghost_pages.Replay.Format.RoundTrip.{RecordFits, read_record-write_record}
use ghost_pages.Replay.Writer.{Codec}
use ghost_pages.Replay.Reader.{TraceReader, moved, checked, on_record, read_next}

module _ {F : Type 0} (c : Codec F) where
  -- In a file with checksums, a record whose payload has another checksum than the one that is
  -- stored, before the end that the header counts, is refused; the reader is then behind it, and the
  -- record is not counted.
  pub read_next-tampered :
      (r : TraceReader) (rec : TraceRecord) (rest : Bytes)
      → RecordFits rec
      → r.current_index < r.header.chunk_count
      → drop r.position r.file ≡ write_record rec ++ rest
      → has_checksum r.header ≡ true
      → c.crc32 rec.payload ≢ rec.crc32
      → read_next c r ≡ (moved r rest, err replay_error)
  unfolding read_next on_record checked moved
  read_next-tampered r rec rest v n d h ne =
      let left : leb r.header.chunk_count r.current_index ≡ false = ground arith in
      let other : (c.crc32 rec.payload == rec.crc32) ≡ false = ground arith in
      rw (left, read_next)
        (ap (on_record c r) (ap read_record d ∙ read_record-write_record rec rest v)
          ∙ rw (h, other, checked) refl)
