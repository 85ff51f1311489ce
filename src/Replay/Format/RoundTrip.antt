-- ===== src/Replay/Format/RoundTrip.antt =====
-- Headers and records are read back as they were written.
use mathlib.Core.List.{append_assoc, filter_map}
use ghost_pages.Common.{
  ℕ, suc, ◌%◌, ◌^◌, ◌<◌, ◌≡◌, refl, sym, ap, ◌∙◌, true, false, List, [], ◌∷◌, ◌++◌, map, some,
  length, length-append, ltb, arith,
}
use ghost_pages.Core.Types.{ok}
use ghost_pages.Common.Bytes.{
  Bytes, bytes_eqb, to_le_bytes, from_le_bytes, length-to_le_bytes, from_le_bytes-to_le_bytes,
}
use ghost_pages.Replay.Bytes.{read_exact, read_exact-append, read_number-to_le_bytes}
use ghost_pages.Replay.Format.{
  Domain, cpu_simulation, disk_io, failure_injected, deterministic, real_io, to_byte, from_byte,
  TraceFileHeader, trace_magic, write_header, read_or_eof, read_domains, read_header_after,
  read_header, TraceRecord, write_record, read_record_after, read_record,
}

-- The fields of a header are what the format has room for, and it is one of this format.
pub record HeaderFits (h : TraceFileHeader) : Type 0 where
  pub genuine : h.magic ≡ trace_magic
  pub version : h.version < 2 ^ 16
  pub flags : h.flags < 2 ^ 16
  pub chunk_count : h.chunk_count < 2 ^ 64
  pub created_at : h.created_at < 2 ^ 64
  pub metadata_offset : h.metadata_offset < 2 ^ 64
  pub domains : length h.domains < 2 ^ 16

pub record RecordFits (r : TraceRecord) : Type 0 where
  pub timestamp : r.timestamp < 2 ^ 64
  pub event_type : r.event_type < 2 ^ 16
  pub payload : length r.payload < 2 ^ 32
  pub payload_len : r.payload_len ≡ length r.payload
  pub crc32 : r.crc32 < 2 ^ 32

domains-to_byte : (ds : List Domain) → filter_map from_byte (map to_byte ds) ≡ ds
unfolding filter_map from_byte to_byte
domains-to_byte [] = refl
domains-to_byte (cpu_simulation ∷ ds) = ap (◌∷◌ cpu_simulation) (domains-to_byte ds)
domains-to_byte (disk_io ∷ ds) = ap (◌∷◌ disk_io) (domains-to_byte ds)
domains-to_byte (failure_injected ∷ ds) = ap (◌∷◌ failure_injected) (domains-to_byte ds)
domains-to_byte (deterministic ∷ ds) = ap (◌∷◌ deterministic) (domains-to_byte ds)
domains-to_byte (real_io ∷ ds) = ap (◌∷◌ real_io) (domains-to_byte ds)

pub length-map-to_byte : (ds : List Domain) → length (map to_byte ds) ≡ length ds
length-map-to_byte [] = refl
length-map-to_byte (d ∷ ds) = ap suc (length-map-to_byte ds)

read_or_eof-to_le_bytes :
    (w n : ℕ) (rest : Bytes)
    → read_or_eof w (to_le_bytes w n ++ rest) ≡ (rest, ok (some (to_le_bytes w n)))
unfolding read_or_eof
read_or_eof-to_le_bytes w n rest =
    let enough : ltb (length (to_le_bytes w n ++ rest)) w ≡ false =
      ground (arith, length-append (to_le_bytes w n) rest, length-to_le_bytes w n) in
    let e : read_exact w (to_le_bytes w n ++ rest) ≡ (rest, ok (to_le_bytes w n)) =
      ap (λ k. read_exact k (to_le_bytes w n ++ rest)) (sym (length-to_le_bytes w n))
      ∙ read_exact-append (to_le_bytes w n) rest in
    rw (enough, read_or_eof, e) refl

read_domains-map :
    (ds : List Domain) (rest : Bytes)
    → length ds < 2 ^ 16
    → read_domains (some (to_le_bytes 2 (length ds % 2 ^ 16))) (map to_byte ds ++ rest)
      ≡ (rest, ok ds)
unfolding read_domains
read_domains-map ds rest h =
    let n : from_le_bytes (to_le_bytes 2 (length ds % 2 ^ 16)) ≡ length (map to_byte ds) =
      from_le_bytes-to_le_bytes 2 (length ds % 2 ^ 16) (omega arith)
      ∙ omega (arith, length-map-to_byte ds) in
    rw (n, read_exact-append (map to_byte ds) rest, domains-to_byte ds) refl

read_header_after_lem :
    (h : TraceFileHeader) (rest : Bytes)
    → HeaderFits h
    → read_header_after h.magic (
        to_le_bytes 2 h.version
        ++ (to_le_bytes 2 h.flags
            ++ (to_le_bytes 8 h.chunk_count
                ++ (to_le_bytes 8 h.created_at
                    ++ (to_le_bytes 8 h.metadata_offset
                        ++ (to_le_bytes 2 (length h.domains % 2 ^ 16)
                            ++ (map to_byte h.domains ++ rest)))))))
      ≡ (rest, ok h)
unfolding read_header_after
read_header_after_lem h rest v =
    rw
      (
        read_number-to_le_bytes 2 h.version _ v.version,
        read_number-to_le_bytes 2 h.flags _ v.flags,
        read_number-to_le_bytes 8 h.chunk_count _ v.chunk_count,
        read_number-to_le_bytes 8 h.created_at _ v.created_at,
        read_number-to_le_bytes 8 h.metadata_offset _ v.metadata_offset,
        read_or_eof-to_le_bytes 2 (length h.domains % 2 ^ 16) _,
        read_domains-map h.domains rest v.domains,
      )
      refl

-- A header that fits the format is read back as it was written, and what follows is left.
pub read_header-write_header :
    (h : TraceFileHeader) (rest : Bytes)
    → HeaderFits h
    → read_header (write_header h ++ rest) ≡ (rest, ok h)
unfolding read_header write_header bytes_eqb
read_header-write_header h rest v =
    let n : 8 ≡ length h.magic = rw v.genuine refl in
    let m = λ (s : Bytes). ap (λ k. read_exact k (h.magic ++ s)) n ∙ read_exact-append h.magic s in
    let genuine : bytes_eqb h.magic trace_magic ≡ true = rw v.genuine refl in
    simp append_assoc (rw (m _, genuine) (read_header_after_lem h rest v))

read_record_after_lem :
    (r : TraceRecord) (rest : Bytes)
    → RecordFits r
    → read_record_after (some (to_le_bytes 8 r.timestamp)) (
        to_le_bytes 2 r.event_type
        ++ (to_le_bytes 4 r.payload_len ++ (r.payload ++ (to_le_bytes 4 r.crc32 ++ rest))))
      ≡ (rest, ok (some r))
unfolding read_record_after
read_record_after_lem r rest v =
    let n : r.payload_len < 2 ^ 32 = omega (arith, v.payload, v.payload_len) in
    let p : read_exact r.payload_len (r.payload ++ (to_le_bytes 4 r.crc32 ++ rest))
        ≡ (to_le_bytes 4 r.crc32 ++ rest, ok r.payload) =
      ap (λ k. read_exact k (r.payload ++ (to_le_bytes 4 r.crc32 ++ rest))) v.payload_len
      ∙ read_exact-append r.payload (to_le_bytes 4 r.crc32 ++ rest) in
    rw
      (
        read_number-to_le_bytes 2 r.event_type _ v.event_type,
        read_number-to_le_bytes 4 r.payload_len _ n,
        p,
        read_number-to_le_bytes 4 r.crc32 _ v.crc32,
        from_le_bytes-to_le_bytes 8 r.timestamp v.timestamp,
      )
      refl

-- A record that fits the format is read back as it was written, and what follows is left.
pub read_record-write_record :
    (r : TraceRecord) (rest : Bytes)
    → RecordFits r
    → read_record (write_record r ++ rest) ≡ (rest, ok (some r))
unfolding read_record write_record
read_record-write_record r rest v =
    simp append_assoc
      (rw (read_or_eof-to_le_bytes 8 r.timestamp _) (read_record_after_lem r rest v))
