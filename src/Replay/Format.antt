-- ===== src/Replay/Format.antt =====
-- crates/ghost-replay/src/format.rs: the header of a trace file and the records behind it. A write is
-- the bytes that it adds. The metadata at the end of the file is a text of JSON, which a library
-- writes and reads.
pub mod RoundTrip
use mathlib.Core.List.{filter_map}
use ghost_pages.Common.{
  ℕ, ◌+◌, ◌/◌, ◌%◌, ◌^◌, Bool, true, false, List, [], ◌∷◌, ◌++◌, map, Option, none, some, length,
  ltb, ◌==◌, if◌then◌else◌,
}
use ghost_pages.Core.Types.{TierId, GhostResult, ok, err, replay_error}
use ghost_pages.Common.Bytes.{Bytes, bytes_eqb, to_le_bytes, from_le_bytes}
use ghost_pages.Replay.Bytes.{Read, ◌>>=◌, give, refuse, read_exact, read_number}

-- `b"GHOSTTRC"`.
abbrev pub trace_magic : Bytes
trace_magic = 0x47 ∷ 0x48 ∷ 0x4f ∷ 0x53 ∷ 0x54 ∷ 0x54 ∷ 0x52 ∷ 0x43 ∷ []

abbrev pub trace_version : ℕ
trace_version = 1

abbrev pub trace_version_with_domains : ℕ
trace_version_with_domains = 2

pub data Domain : Type 0 where
  cpu_simulation disk_io failure_injected deterministic real_io : Domain

unfoldable pub to_byte : Domain → ℕ
to_byte cpu_simulation = 0
to_byte disk_io = 1
to_byte failure_injected = 2
to_byte deterministic = 3
to_byte real_io = 4

unfoldable pub from_byte : ℕ → Option Domain
from_byte b =
    if b == 0
    then some cpu_simulation
    else if b == 1
    then some disk_io
    else if b == 2
    then some failure_injected
    else if b == 3
    then some deterministic
    else if b == 4
    then some real_io
    else none

pub record TraceFileHeader : Type 0 where
  pub magic : Bytes
  pub version : ℕ
  pub flags : ℕ
  pub chunk_count : ℕ
  pub created_at : ℕ
  pub metadata_offset : ℕ
  pub domains : List Domain

-- `TraceFileHeader::SIZE`.
abbrev pub header_size : ℕ
header_size = 8 + 2 + 2 + 8 + 8 + 8 + 2

unfoldable pub new_header : (flags chunk_count created_at metadata_offset : ℕ) → TraceFileHeader
new_header flags chunk_count created_at metadata_offset = record {
  magic = trace_magic;
  version = trace_version;
  flags = flags;
  chunk_count = chunk_count;
  created_at = created_at;
  metadata_offset = metadata_offset;
  domains = [];
}

unfoldable pub with_domains :
    (flags chunk_count created_at metadata_offset : ℕ) → List Domain → TraceFileHeader
with_domains flags chunk_count created_at metadata_offset domains = record {
  magic = trace_magic;
  version = trace_version_with_domains;
  flags = flags;
  chunk_count = chunk_count;
  created_at = created_at;
  metadata_offset = metadata_offset;
  domains = domains;
}

-- `TraceFileHeader::write_to`.
unfoldable pub write_header : TraceFileHeader → Bytes
write_header h =
    h.magic
    ++ (to_le_bytes 2 h.version
        ++ (to_le_bytes 2 h.flags
            ++ (to_le_bytes 8 h.chunk_count
                ++ (to_le_bytes 8 h.created_at
                    ++ (to_le_bytes 8 h.metadata_offset
                        ++ (to_le_bytes 2 (length h.domains % 2 ^ 16) ++ map to_byte h.domains))))))

-- `read_exact_or_eof`: none at the end of the file.
unfoldable pub read_or_eof : ℕ → Read (Option Bytes)
read_or_eof n stream =
    if ltb (length stream) n then ([], ok none) else (read_exact n >>= λ b. give (some b)) stream

-- The domains behind their number; a file without a number of domains is one of the old format.
unfoldable pub read_domains : Option Bytes → Read (List Domain)
read_domains none = give []
read_domains (some count) = do
  domain_bytes ← read_exact (from_le_bytes count)
  give (filter_map from_byte domain_bytes)

-- `TraceFileHeader::read_from`.
unfoldable pub read_header_after : Bytes → Read TraceFileHeader
read_header_after magic = do
  version ← read_number 2
  flags ← read_number 2
  chunk_count ← read_number 8
  created_at ← read_number 8
  metadata_offset ← read_number 8
  count ← read_or_eof 2
  domains ← read_domains count
  give (record {
    magic = magic;
    version = version;
    flags = flags;
    chunk_count = chunk_count;
    created_at = created_at;
    metadata_offset = metadata_offset;
    domains = domains;
  })

unfoldable pub read_header : Read TraceFileHeader
read_header = do
  magic ← read_exact 8
  if bytes_eqb magic trace_magic then read_header_after magic else refuse (err replay_error)

-- `flags & COMPRESSED != 0` and `flags & HAS_CHECKSUM != 0`, on the bits 0 and 1.
unfoldable pub is_compressed : TraceFileHeader → Bool
is_compressed h = h.flags % 2 == 1

unfoldable pub has_checksum : TraceFileHeader → Bool
has_checksum h = h.flags / 2 % 2 == 1

pub record TraceRecord : Type 0 where
  pub timestamp : ℕ
  pub event_type : ℕ
  pub payload_len : ℕ
  pub payload : Bytes
  pub crc32 : ℕ

-- `TraceRecord::write_to`.
unfoldable pub write_record : TraceRecord → Bytes
write_record r =
    to_le_bytes 8 r.timestamp
    ++ (to_le_bytes 2 r.event_type
        ++ (to_le_bytes 4 r.payload_len ++ (r.payload ++ to_le_bytes 4 r.crc32)))

-- `TraceRecord::read_from`: none at the end of the file.
unfoldable pub read_record_after : Option Bytes → Read (Option TraceRecord)
read_record_after none = give none
read_record_after (some stamp) = do
  event_type ← read_number 2
  payload_len ← read_number 4
  payload ← read_exact payload_len
  crc32 ← read_number 4
  give (
      some (record {
        timestamp = from_le_bytes stamp;
        event_type = event_type;
        payload_len = payload_len;
        payload = payload;
        crc32 = crc32;
      }))

unfoldable pub read_record : Read (Option TraceRecord)
read_record = do stamp ← read_or_eof 8; read_record_after stamp
