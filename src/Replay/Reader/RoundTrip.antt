-- ===== src/Replay/Reader/RoundTrip.antt =====
-- A trace file is read back as it was written.
use mathlib.Core.List.{append_assoc, append-nil}
use native.Mathlib.Nat.{add-zero}
use ghost_pages.Common.{
  ℕ, zero, suc, ◌+◌, ◌-◌, ◌%◌, ◌^◌, ◌<◌, ◌≡◌, refl, sym, ap, ◌∙◌, true, false, Option, none, some,
  List, [], ◌∷◌, ◌++◌, All, length, take, drop, length-append, take-append-drop, leb, ◌==◌, arith,
  Bool-cases, inl, inr,
}
use ghost_pages.Core.Types.{ok}
use ghost_pages.Core.Trace.{TraceEvent, timestamp}
use ghost_pages.Common.Bytes.{Bytes, to_le_bytes, length-to_le_bytes, drop-append_length}
use ghost_pages.Replay.Format.{
  Domain, TraceFileHeader, header_size, trace_magic, with_domains, write_header, read_header,
  has_checksum, write_record, read_record,
}
use ghost_pages.Replay.Format.RoundTrip.{
  HeaderFits, RecordFits, length-map-to_byte, read_header-write_header, read_record-write_record,
}
use ghost_pages.Replay.Writer.{
  Codec, IsFaithful, TraceMetadata, TraceWriter, create, event_type_index-lt, record_of,
  write_event, and_then, write_events, overwrite, with_metadata, close,
}
use ghost_pages.Replay.Reader.{
  TraceReader, moved, opened, open_trace, checked, on_record, read_next, keep, on_next, read_events,
  read_all,
}

pub length-write_header :
    (h : TraceFileHeader) → h.magic ≡ trace_magic → length (write_header h) ≡ 38 + length h.domains
unfolding write_header
length-write_header h m =
    let n : length h.magic ≡ 8 = rw m refl in
    simp (length-append, length-to_le_bytes, length-map-to_byte, n) (omega arith)

-- What is left of a file stands at its end.
pub drop-suffix :
    (pre rest : Bytes) → drop (length (pre ++ rest) - length rest) (pre ++ rest) ≡ rest
drop-suffix pre rest =
    ap (λ n. drop n (pre ++ rest)) (omega (arith, length-append pre rest))
    ∙ drop-append_length pre rest

pub drop-behind :
    (p : ℕ) (file xs rest : Bytes)
    → drop p file ≡ xs ++ rest
    → drop (length file - length rest) file ≡ rest
drop-behind p file xs rest h =
    let e : (take p file ++ xs) ++ rest ≡ file =
      append_assoc (take p file) xs rest
      ∙ ap (λ s. take p file ++ s) (sym h)
      ∙ take-append-drop p file in
    ap (λ f. drop (length f - length rest) f) (sym e) ∙ drop-suffix (take p file ++ xs) rest

overwrite_lem :
    (bytes old rest : Bytes)
    → length bytes ≡ length old
    → overwrite bytes (old ++ rest) ≡ bytes ++ rest
unfolding overwrite
overwrite_lem bytes old rest h =
    ap (λ n. bytes ++ drop n (old ++ rest)) h ∙ ap (λ s. bytes ++ s) (drop-append_length old rest)

module _ {F : Type 0} (c : Codec F) where
  -- An event that the format has room for: it has an encoding of less than 2^32 bytes.
  pub record IsWritable (e : TraceEvent F) : Type 0 where
    pub payload : Bytes
    pub encoded : c.serialize e ≡ some payload
    pub short : length payload < 2 ^ 32
    pub stamped : timestamp e < 2 ^ 64

  -- The bytes of an event.
  unfoldable pub written : (e : TraceEvent F) → Option Bytes → Bytes
  written e none = []
  written e (some payload) = write_record (record_of c e payload)

  unfoldable pub body : List (TraceEvent F) → Bytes
  unfolding written
  body [] = []
  body (e ∷ es) = written e (c.serialize e) ++ body es

  pub record_of-RecordFits :
      (e : TraceEvent F) (v : IsWritable e) → IsFaithful c → RecordFits (record_of c e v.payload)
  unfolding record_of
  record_of-RecordFits e v l = record {
    timestamp = v.stamped;
    event_type = event_type_index-lt e;
    payload = v.short;
    payload_len = omega (arith, v.short);
    crc32 = l.crc32_word v.payload;
  }

  write_event_lem :
      (w : TraceWriter) (e : TraceEvent F)
      → IsWritable e
      → w.record_count + 1 < 2 ^ 64
      → write_event c w e ≡ (
        record w { file = w.file ++ written e (c.serialize e); record_count = w.record_count + 1 },
        ok tt,
      )
  unfolding write_event written
  write_event_lem w e v h =
      let n : (w.record_count + 1) % 2 ^ 64 ≡ w.record_count + 1 = omega arith in
      rw (v.encoded, write_event, n) refl

  write_events_lem :
      (w : TraceWriter) (es : List (TraceEvent F))
      → All IsWritable es
      → w.record_count + length es < 2 ^ 64
      → write_events c w es
        ≡ (record w { file = w.file ++ body es; record_count = w.record_count + length es }, ok tt)
  unfolding write_events body
  write_events_lem w [] a h = rw (append-nil, add-zero) refl
  write_events_lem w (e ∷ es) a h =
      let w' = record w {
        file = w.file ++ written e (c.serialize e);
        record_count = w.record_count + 1;
      } in
      let n : w.record_count + 1 + length es ≡ w.record_count + suc (length es) = omega arith in
      ap (λ x. and_then x (λ v. write_events c v es)) (write_event_lem w e a.0 (omega arith))
      ∙ write_events_lem w' es a.1 (omega arith)
      ∙ rw (append_assoc w.file (written e (c.serialize e)) (body es), n) refl

  checked_lem :
      (r : TraceReader) (e : TraceEvent F) (v : IsWritable e)
      → IsFaithful c
      → checked c r (record_of c e v.payload)
        ≡ (record r { current_index = r.current_index + 1 }, ok (some e))
  unfolding checked record_of
  checked_lem r e v l =
      let same : (c.crc32 v.payload == c.crc32 v.payload) ≡ true = ground arith in
      elim (Bool-cases (has_checksum r.header)) [
        | inl h ↦ rw (h, checked, same, l.decodes e v.payload v.encoded) refl
        | inr h ↦ rw (h, checked, l.decodes e v.payload v.encoded) refl
      ]

  -- A reader before a record that was written of an event, with records left, reads that event.
  read_next_lem :
      (r : TraceReader) (e : TraceEvent F) (rest : Bytes)
      → IsFaithful c
      → IsWritable e
      → r.current_index < r.header.chunk_count
      → drop r.position r.file ≡ written e (c.serialize e) ++ rest
      → read_next c r ≡ (record (moved r rest) { current_index = r.current_index + 1 }, ok (some e))
  unfolding read_next on_record moved written
  read_next_lem r e rest l v h d =
      let left : leb r.header.chunk_count r.current_index ≡ false = ground arith in
      let got : read_record (drop r.position r.file) ≡ (rest, ok (some (record_of c e v.payload))) =
        ap read_record (d ∙ ap (λ o. written e o ++ rest) v.encoded)
        ∙ read_record-write_record (record_of c e v.payload) rest (record_of-RecordFits e v l) in
      rw (left, read_next) (ap (on_record c r) got ∙ checked_lem (moved r rest) e v l)

  read_next_end :
      (r : TraceReader)
      → leb r.header.chunk_count r.current_index ≡ true
      → read_next c r ≡ (r, ok none)
  unfolding read_next
  read_next_end r h = rw (h, read_next) refl

  pub read_events_lem :
      (es : List (TraceEvent F)) (r : TraceReader) (rest : Bytes)
      → IsFaithful c
      → All IsWritable es
      → r.header.chunk_count ≡ r.current_index + length es
      → drop r.position r.file ≡ body es ++ rest
      → (r' : TraceReader) × (read_events c (suc (length es)) r ≡ (r', ok es))
  unfolding read_events body moved
  read_events_lem [] r rest l a n d =
      let done : leb r.header.chunk_count r.current_index ≡ true = ground arith in
      (r, ap (λ x. on_next x (λ r'. read_events c zero r')) (read_next_end r done))
  read_events_lem (e ∷ es) r rest l a n d =
      let behind = record (moved r (body es ++ rest)) { current_index = r.current_index + 1 } in
      let d' : drop r.position r.file ≡ written e (c.serialize e) ++ (body es ++ rest) =
        d ∙ append_assoc (written e (c.serialize e)) (body es) rest in
      let (r', more) =
        read_events_lem es behind rest l a.1 (omega arith)
          (drop-behind r.position r.file (written e (c.serialize e)) (body es ++ rest) d') in
      (
        r',
        ap (λ x. on_next x (λ v. read_events c (suc (length es)) v))
              (read_next_lem r e (body es ++ rest) l a.0 (omega arith) d')
            ∙ ap (keep e) more,
      )

  -- The file of a trace: one that is created, to which the events are written, and that is closed.
  abbrev pub recorded : (flags : ℕ) → List Domain → List (TraceEvent F) → TraceMetadata → Bytes
  recorded flags domains es metadata =
      (close c (write_events c (create flags domains) es).0 metadata).0

  -- What stands in the file: the final header, the events and the metadata.
  recorded_lem :
      (flags : ℕ) (domains : List Domain) (es : List (TraceEvent F)) (metadata : TraceMetadata)
      (json : Bytes)
      → c.to_json metadata ≡ some json
      → All IsWritable es
      → length es < 2 ^ 64
      → recorded flags domains es metadata
        ≡ write_header
            (with_domains flags (length es) 0 (38 + length domains + length (body es)) domains)
          ++ (body es ++ (to_le_bytes 8 (length json % 2 ^ 64) ++ json))
  unfolding create close with_metadata with_domains
  recorded_lem flags domains es metadata json j a h =
      let start = write_header (with_domains flags 0 0 0 domains) in
      let size : length start ≡ 38 + length domains =
        length-write_header (with_domains flags 0 0 0 domains) refl in
      let n : 0 + length es ≡ length es = omega arith in
      let offset : length (start ++ body es) ≡ 38 + length domains + length (body es) =
        omega (arith, length-append start (body es), size) in
      let final =
        with_domains flags (length es) 0 (38 + length domains + length (body es)) domains in
      let tail = to_le_bytes 8 (length json % 2 ^ 64) ++ json in
      ap (λ x. (close c x.0 metadata).0)
        (write_events_lem (create flags domains) es a (omega arith))
      ∙ rw (j, close, n, offset) refl
      ∙ ap (overwrite (write_header final)) (append_assoc start (body es) tail)
      ∙ overwrite_lem (write_header final) start (body es ++ tail)
          (length-write_header final refl ∙ sym size)

  -- What the format has room for: the events, the flags, the domains, the number of events and the
  -- size of the file; and the metadata have an encoding.
  pub record TraceFits (flags : ℕ) (domains : List Domain) (es : List (TraceEvent F))
      (metadata : TraceMetadata) : Type 0 where
    pub json : Bytes
    pub encoded : c.to_json metadata ≡ some json
    pub writable : All IsWritable es
    pub flag_bits : flags < 2 ^ 16
    pub domain_count : length domains < 2 ^ 16
    pub event_count : length es < 2 ^ 64
    pub offset : 38 + length domains + length (body es) < 2 ^ 64

  -- A reader that stands before some events, the last that its header counts.
  pub record Stands (es : List (TraceEvent F)) (rest : Bytes) (r : TraceReader) : Type 0 where
    pub counted : r.header.chunk_count ≡ r.current_index + length es
    pub left : drop r.position r.file ≡ body es ++ rest

  pub Stands-read_all :
      (es : List (TraceEvent F)) (rest : Bytes) (r : TraceReader)
      → IsFaithful c
      → All IsWritable es
      → Stands es rest r
      → (r' : TraceReader) × (read_all c r ≡ (r', ok es))
  unfolding read_all
  Stands-read_all es rest r l a s =
      let n : r.header.chunk_count - r.current_index ≡ length es = omega (arith, s.counted) in
      let (r', e) = read_events_lem es r rest l a s.counted s.left in (r', rw n e)

  pub open_trace-recorded :
      (flags : ℕ) (domains : List Domain) (es : List (TraceEvent F)) (metadata : TraceMetadata)
      → TraceFits flags domains es metadata
      → (r : TraceReader) × (tail : Bytes) × (open_trace (recorded flags domains es metadata)
          ≡ ok r)
        × Stands es tail r
        × (r.current_index ≡ 0)
  unfolding with_domains open_trace opened
  open_trace-recorded flags domains es metadata v =
      let final =
        with_domains flags (length es) 0 (38 + length domains + length (body es)) domains in
      let tail = to_le_bytes 8 (length v.json % 2 ^ 64) ++ v.json in
      let file = recorded flags domains es metadata in
      let content =
        recorded_lem flags domains es metadata v.json v.encoded v.writable v.event_count in
      let fits : HeaderFits final = record {
        genuine = refl;
        version = omega arith;
        flags = v.flag_bits;
        chunk_count = v.event_count;
        created_at = omega arith;
        metadata_offset = v.offset;
        domains = v.domain_count;
      } in
      (
        record {
          file = file;
          position = length file - length (body es ++ tail);
          header = final;
          current_index = 0;
          header_bytes = header_size + 2 + length domains;
        },
        tail,
        ap (opened file)
            (ap read_header content ∙ read_header-write_header final (body es ++ tail) fits),
        record {
          counted = omega arith;
          left =
              ap (λ f. drop (length f - length (body es ++ tail)) f) content
              ∙ drop-suffix (write_header final) (body es ++ tail);
        },
        refl,
      )
